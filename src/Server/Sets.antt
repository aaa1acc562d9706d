-- ===== src/Server/Sets.antt =====
-- internal/server/server.go, getSet and postSet. What a request says, JSON of version vectors and
-- base64 are the parameters of `SetCodec`; json.Marshal of a version vector, a map of numbers, gives no
-- error. A handler gives the status with the response's body, and `none` is a panic in a set.
pub mod Adds
use mathlib.Core.Option
use commute.Prelude.{
  ◌>>=◌, str_eq, ℕ, Str, Map, Option, none, some, List, [], ◌∷◌, Bool, true, false, ◌&&◌,
  if◌then◌else◌, nat_beq, length, lookup, insert, or_else,
}
use commute.Crdt.DvvSet.{Vv}
use commute.Store
use commute.Store.{Store}
use commute.Server.{Server, status_ok, bad_request, not_found}

-- setRequestBody
pub record SetRequest : Type 0 where
  pub add : List Str
  pub remove : List Str
  pub contexts : Map Str Str

-- setResponseBody
pub record SetResponse : Type 0 where
  pub values : List Str
  pub contexts : Map Str Str

pub record SetCodec : Type 0 where
  pub set_request : Str → Option SetRequest
  pub encode_base64 : Str → Str
  pub decode_base64 : Str → Option Str
  pub marshal_vv : Vv → Str
  pub unmarshal_vv : Str → Option Vv

-- for _, v := range body.Remove { … }
unfoldable pub remove_all : Str → List Str → Map Str Vv → Store → Option Store
unfolding Store.remove_set lookup
remove_all key [] vvs st = some st
remove_all key (v ∷ vs) vvs st =
    Store.remove_set key v (or_else (lookup v vvs) []) st >>= remove_all key vs vvs

-- for _, v := range body.Add { … }
unfoldable pub add_all : Str → List Str → Map Str Vv → Store → Option Store
unfolding Store.add_set lookup
add_all key [] vvs st = some st
add_all key (v ∷ vs) vvs st =
    Store.add_set key v (or_else (lookup v vvs) []) st >>= add_all key vs vvs

module _ (C : SetCodec) where
  -- encodeContexts
  unfoldable pub encode_contexts : Map Str Vv → Map Str Str
  encode_contexts [] = []
  encode_contexts ((k, vv) ∷ vvs) = (k, C.encode_base64 (C.marshal_vv vv)) ∷ encode_contexts vvs

  -- The loop over body.Contexts.
  unfoldable pub decode_contexts : Map Str Str → Option (Map Str Vv)
  decode_contexts [] = some []
  decode_contexts ((k, v) ∷ contexts) =
      let rest = decode_contexts contexts in
      do raw ← C.decode_base64 v; vv ← C.unmarshal_vv raw; vvs ← rest; some ((k, vv) ∷ vvs)

  -- From GetSet to the end of both handlers.
  unfoldable pub respond : Option (List Str × Map Str Vv) → ℕ × Option SetResponse
  unfolding encode_contexts
  respond none = (not_found, none)
  respond (some (values, vvs)) =
      (status_ok, some (record { values = values; contexts = encode_contexts vvs }))

  -- getSet
  unfoldable pub get_set : Str → Server → ℕ × Option SetResponse
  unfolding respond Store.get_set
  get_set [] srv = (bad_request, none)
  get_set (c ∷ key) srv = respond (Store.get_set (c ∷ key) srv.store)

  -- The removes, and then the adds.
  unfoldable pub write_all :
      Str → SetRequest → Map Str Vv → Server → Option ((ℕ × Option SetResponse) × Server)
  unfolding remove_all add_all get_set
  write_all key body vvs srv = do
    removed ← remove_all key body.remove vvs srv.store
    st ← add_all key body.add vvs removed
    some (get_set key (record srv { store = st }), record srv { store = st })

  unfoldable pub on_request : Str → SetRequest → Server → Option ((ℕ × Option SetResponse) × Server)
  unfolding decode_contexts write_all
  on_request key body srv =
      if nat_beq (length body.add) 0 && nat_beq (length body.remove) 0
      then some ((bad_request, none), srv)
      else elim (decode_contexts body.contexts) [
        | none ↦ some ((bad_request, none), srv)
        | some vvs ↦ write_all key body vvs srv
      ]

  -- postSet
  unfoldable pub post_set : Str → Option Str → Server → Option ((ℕ × Option SetResponse) × Server)
  unfolding on_request
  post_set [] body srv = some ((bad_request, none), srv)
  post_set (c ∷ key) none srv = some ((bad_request, none), srv)
  post_set (c ∷ key) (some b) srv = elim (C.set_request b) [
    | none ↦ some ((bad_request, none), srv)
    | some body ↦ on_request (c ∷ key) body srv
  ]
