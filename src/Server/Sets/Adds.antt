-- ===== src/Server/Sets/Adds.antt =====
-- What a POST to a set adds is in the set that it answers with, and that a GET then gives.
use commute.Prelude.{
  str_eq, ℕ, ◌+◌, ◌<◌, ◌≤◌, Str, Map, Option, some, List, [], ◌∷◌, true, false, ◌≡◌, ◌⊎◌, inl, inr,
  refl, sym, ◌∙◌, ap, arith, nat_beq, length, lookup, or_else, subst, i64, str_beq, str_beq_iff,
  contains_func, Bool-cases,
}
use commute.Crdt.DvvSet.{Vv}
use commute.Crdt.OrSet
use commute.Crdt.OrSet.{OrSet, contains, contains_in}
use commute.Crdt.OrSet.Writes.{IsContext}
use commute.Crdt.OrSet.Ready.{IsReady}
use commute.Crdt.OrSet.Values.{values-contains}
use commute.Store
use commute.Store.{Store}
use commute.Store.Sets.{current}
use commute.Store.Sets.Writes.{add_set-Added, remove_set-Removed, current-stored}
use commute.Server.{Server, status_ok}
use commute.Server.Sets.{
  SetCodec, SetRequest, SetResponse, remove_all, add_all, encode_contexts, decode_contexts, respond,
  get_set, write_all, on_request, post_set,
}

-- The set that a write to the key finds.
abbrev pub set_at : Str → Store → OrSet
set_at key st = current st.node_id key st.sets

-- Contexts with counters that are positive ints.
abbrev pub AreContexts : Map Str Vv → Type 0
AreContexts vvs = (v : Str) → IsContext (or_else (lookup v vvs) [])

record RemovedAll (n : ℕ) (key : Str) (o : Option Store) : Type 0 where
  store : Store
  succeeds : o ≡ some store
  ready : IsReady n (set_at key store)

remove_all-RemovedAll :
    (n : ℕ) (key : Str) (vs : List Str) (vvs : Map Str Vv) (st : Store)
    → IsReady (n + length vs) (set_at key st)
    → AreContexts vvs
    → RemovedAll n key (remove_all key vs vvs st)
unfolding remove_all Store.remove_set
remove_all-RemovedAll n key [] vvs st h k = record {
  store = st;
  succeeds = refl;
  ready = λ v ds e. ((h v ds e).0, omega (arith, (h v ds e).1));
}
remove_all-RemovedAll n key (v ∷ vs) vvs st h k =
    let h' : IsReady (n + length vs + 1) (set_at key st) =
      λ v ds e. ((h v ds e).0, omega (arith, (h v ds e).1)) in
    let r =
      remove_set-Removed (n + length vs) st.node_id key v (or_else (lookup v vvs) []) st.sets h'
        (k v) in
    let rest = remove_all-RemovedAll n key vs vvs (record st { sets = r.part }) r.ready k in
    record { store = rest.store; succeeds = rw (r.succeeds) rest.succeeds; ready = rest.ready }

-- There is a set at the key.
abbrev HasSet : Str → Store → Type 0
HasSet key st = (set : OrSet) × (lookup key st.sets.live ≡ some set)

record AddedAll (key : Str) (vs : List Str) (st : Store) (o : Option Store) : Type 0 where
  store : Store
  succeeds : o ≡ some store
  keeps : (w : Str) → contains (set_at key st) w ≡ true → contains (set_at key store) w ≡ true
  live : 1 ≤ length vs ⊎ HasSet key st → HasSet key store
  has : (w : Str) → contains_func (str_beq w) vs ≡ true → contains (set_at key store) w ≡ true

add_all-AddedAll :
    (key : Str) (vs : List Str) (vvs : Map Str Vv) (st : Store)
    → length vs + 1 < i64
    → IsReady (length vs) (set_at key st)
    → AreContexts vvs
    → AddedAll key vs st (add_all key vs vvs st)
unfolding add_all Store.add_set contains_func
add_all-AddedAll key [] vvs st b h k = record {
  store = st;
  succeeds = refl;
  keeps = λ w c. c;
  live = λ l. elim l [ inl n ↦ absurd (omega arith) | inr s ↦ s ];
  has = λ w c. cc;
}
add_all-AddedAll key (v ∷ vs) vvs st b h k =
    let h' : IsReady (length vs + 1) (set_at key st) =
      λ v ds e. ((h v ds e).0, omega (arith, (h v ds e).1)) in
    let a =
      add_set-Added (length vs) st.node_id key v (or_else (lookup v vvs) []) st.sets (omega arith)
        h' (k v) in
    let next = record st { sets = a.part } in
    let here : set_at key next ≡ a.set = current-stored st.node_id key a.part a.set a.live in
    let rest =
      add_all-AddedAll key vs vvs next (omega arith)
        (subst (IsReady (length vs)) (sym here) a.ready) k in
    let stays : (w : Str) → contains a.set w ≡ true → contains (set_at key rest.store) w ≡ true =
      λ w c. rest.keeps w (ap (λ s. contains s w) here ∙ c) in
    record {
      store = rest.store;
      succeeds = rw (a.succeeds) rest.succeeds;
      keeps = λ w c. stays w (a.keeps w c);
      live = λ l. rest.live (inr (a.set, a.live));
      has = λ w c. elim (Bool-cases (str_beq w v)) [
        | inl q ↦ stays w (subst (λ x. contains a.set x ≡ true) (sym ((str_beq_iff w v).0 q)) a.has)
        | inr q ↦ rest.has w (ground arith)
      ];
    }

respond-live :
    (C : SetCodec) (key : Str) (srv : Server) (set : OrSet)
    → 1 ≤ length key
    → lookup key srv.store.sets.live ≡ some set
    → (resp : SetResponse) × (get_set C key srv ≡ (status_ok, some resp))
      × (resp.values ≡ OrSet.values set)
unfolding get_set respond Store.get_set Store.Sets.get_set Store.Sets.get_in
respond-live C [] srv set l e = absurd (omega arith)
respond-live C (c ∷ key) srv set l e = (
  record { values = OrSet.values set; contexts = encode_contexts C (OrSet.causal_contexts set) },
  rw e refl,
  refl,
)

post_set-written :
    (C : SetCodec) (c : ℕ) (key b : Str) (srv : Server) (body : SetRequest) (vvs : Map Str Vv)
    (removed st : Store)
    → C.set_request b ≡ some body
    → decode_contexts C body.contexts ≡ some vvs
    → 1 ≤ length body.add
    → remove_all (c ∷ key) body.remove vvs srv.store ≡ some removed
    → add_all (c ∷ key) body.add vvs removed ≡ some st
    → post_set C (c ∷ key) (some b) srv
      ≡ some (get_set C (c ∷ key) (record srv { store = st }), record srv { store = st })
unfolding post_set on_request write_all
post_set-written C c key b srv body vvs removed st eb ev l er ea =
    let n : nat_beq (length body.add) 0 ≡ false = ground arith in
    rw (eb, post_set, on_request, n, ev, write_all, er, ea) refl

-- A POST to a set whose body can be read, whose contexts can be decoded into counters that are positive
-- ints, and that adds an element at least, is answered 200 with the set that a GET then gives, and each
-- element that it adds is in that set, also if it removes the element as well. The siblings of the
-- set's elements are valid, and its counters stay positive ints through all writes.
pub get_set-post_set :
    (C : SetCodec) (c : ℕ) (key b : Str) (srv : Server) (body : SetRequest) (vvs : Map Str Vv)
    → C.set_request b ≡ some body
    → decode_contexts C body.contexts ≡ some vvs
    → AreContexts vvs
    → 1 ≤ length body.add
    → length body.add + 1 < i64
    → IsReady (length body.add + length body.remove) (set_at (c ∷ key) srv.store)
    → (resp : SetResponse) × (after : Server) × (post_set C (c ∷ key) (some b) srv
        ≡ some ((status_ok, some resp), after))
      × (get_set C (c ∷ key) after ≡ (status_ok, some resp))
      × ((w : Str)
          → contains_func (str_beq w) body.add ≡ true
          → contains_func (str_beq w) resp.values ≡ true)
get_set-post_set C c key b srv body vvs eb ev k some_add few h =
    let r = remove_all-RemovedAll (length body.add) (c ∷ key) body.remove vvs srv.store h k in
    let a = add_all-AddedAll (c ∷ key) body.add vvs r.store few r.ready k in
    let after = record srv { store = a.store } in
    let (set, live) = a.live (inl some_add) in
    let (resp, got, vals) = respond-live C (c ∷ key) after set (omega arith) live in
    let n : nat_beq (length body.add) 0 ≡ false = ground arith in
    (
      resp,
      after,
      post_set-written C c key b srv body vvs r.store a.store eb ev some_add r.succeeds a.succeeds
          ∙ ap (λ x. some (x, after)) got,
      got,
      λ w m.
          let here = current-stored a.store.node_id (c ∷ key) a.store.sets set live in
          ap (contains_func (str_beq w)) vals
          ∙ values-contains set w (ap (λ s. contains s w) (sym here) ∙ a.has w m),
    )
