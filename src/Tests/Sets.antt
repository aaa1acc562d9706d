-- ===== src/Tests/Sets.antt =====
-- A POST that removes and adds one element of a new set.
use commute.Prelude.{
  str_eq, Str, some, [], ◌∷◌, true, ◌≡◌, refl, arith, lookup, str_beq, contains_func,
}
use commute.Store.{new_store}
use commute.Server.{Server, status_ok}
use commute.Server.Sets.{SetCodec, SetRequest, SetResponse, get_set, post_set}
use commute.Server.Sets.Adds.{get_set-post_set}
use commute.Tests.{node_b, node_c}

abbrev change_b : SetRequest
change_b = record { add = node_b ∷ []; remove = node_b ∷ []; contexts = [] }

abbrev plain : SetCodec
plain = record {
  set_request = λ b. some change_b;
  encode_base64 = λ s. s;
  decode_base64 = λ s. some s;
  marshal_vv = λ vv. [];
  unmarshal_vv = λ s. some [];
}

abbrev fresh : Server
fresh = record { peers = []; store = new_store node_c }

get_set-post_set_example :
    (resp : SetResponse) × (after : Server) × (post_set plain node_c (some []) fresh
      ≡ some ((status_ok, some resp), after))
    × (get_set plain node_c after ≡ (status_ok, some resp))
    × ((w : Str)
        → contains_func (str_beq w) (node_b ∷ []) ≡ true
        → contains_func (str_beq w) resp.values ≡ true)
unfolding lookup new_store commute.Server.Sets.decode_contexts commute.Crdt.OrSet.new
    commute.Store.Part.empty
get_set-post_set_example =
    get_set-post_set plain 99 [] [] fresh change_b [] refl refl (λ v id. omega arith) (omega arith)
      (omega arith) (λ v ds e. absurd (cc))
