-- ===== src/Crdt/OrSet/Writes.antt =====
-- Add and Remove: what is in the set once their deltas are merged into it.
use commute.Prelude.{
  str_eq, ℕ, ◌+◌, ◌<◌, Str, Option, none, some, [], Bool, true, false, ◌&&◌, ◌≡◌, ◌↔◌, inl, inr,
  refl, sym, ◌∙◌, ap, arith, nat_beq, nat_beq_iff, str_beq, str_beq_iff, Bool-cases, Option-cases,
  lookup, insert, or_else, i64,
}
use commute.Crdt.DvvSet.{DvvSet, Vv, get, update, IsValid}
use commute.Crdt.DvvSet.Update.{sibling_at, counter_at, sibling-update, update-IsValid}
use commute.Crdt.DvvSet.Absorb.{sync-update, sibling_bound}
use commute.Crdt.OrSet.{OrSet, contains, add, remove, only, merge, merge_in}
use commute.Crdt.OrSet.Observed.{Unseen, merge-only, contains-insert, unseen_left, left_unseen}

old_dot_test :
    (ds : DvvSet Bool) (node id : Str) (c : ℕ) (b : Bool)
    → sibling_at ds id c ≡ some b
    → (str_beq node id && nat_beq c (counter_at ds node + 1)) ≡ false
old_dot_test ds node id c b h = elim (Bool-cases (str_beq node id)) [
  | inl q ↦
      let i : counter_at ds node ≡ counter_at ds id =
        ap (counter_at ds) ((str_beq_iff node id).0 q) in
      rw q (ground (arith, sibling_bound (lookup id ds) c b h))
  | inr q ↦ rw q
]

-- A context with counters that are positive ints.
abbrev pub IsContext : Vv → Type 0
IsContext vv = (id : Str) → get vv id < i64

pub add-only :
    (or : OrSet) (value : Str) (vv : Vv) (o : Option (DvvSet Bool)) (u : DvvSet Bool)
    → lookup value or.state ≡ o
    → update (or_else o []) or.node_id vv true ≡ some u
    → add or value vv ≡ some (only value u)
unfolding add
add-only or value vv o u e f = rw (e, f)

pub remove-only :
    (or : OrSet) (value : Str) (vv : Vv) (ds u : DvvSet Bool)
    → lookup value or.state ≡ some ds
    → update ds or.node_id vv false ≡ some u
    → remove or value vv ≡ some (only value u)
unfolding remove
remove-only or value vv ds u e f = rw (e, f)

-- The dot of a new event.
new_dot_test : (node : Str) (n : ℕ) → (str_beq node node && nat_beq (n + 1) (n + 1)) ≡ true
new_dot_test node n = rw ((str_beq_iff node node).1 refl, (nat_beq_iff (n + 1) (n + 1)).1 refl)

pub empty-IsValid : IsValid {T = Bool} []
unfolding lookup
empty-IsValid = record { distinct = tt; entries = λ id x q. absurd (cc) }

adopted :
    (or : OrSet) (value : Str) (vv : Vv)
    → lookup value or.state ≡ none
    → IsContext vv
    → (d : OrSet) × (r : OrSet) × (add or value vv ≡ some d)
      × (merge or d ≡ some r)
      × (contains r value ≡ true)
unfolding lookup merge_in
adopted or value vv e k =
    let (u, f, at) = sibling-update [] or.node_id vv true empty-IsValid (omega arith) in
    let new : (contains (record or { state = insert value u or.state }) value ≡ true) ↔ _ =
      contains-insert or value u
        (update-IsValid [] or.node_id vv true u empty-IsValid (omega arith) k f) in
    (
      only value u,
      record or { state = insert value u or.state },
      add-only or value vv none u e f,
      merge-only or value u u (rw e),
      new.1 (or.node_id, 1, at or.node_id 1 ∙ rw (new_dot_test or.node_id 0)),
    )

synced_add :
    (or : OrSet) (value : Str) (vv : Vv) (ds : DvvSet Bool)
    → lookup value or.state ≡ some ds
    → IsValid ds
    → counter_at ds or.node_id + 1 < i64
    → IsContext vv
    → (d : OrSet) × (r : OrSet) × (add or value vv ≡ some d)
      × (merge or d ≡ some r)
      × (contains r value ≡ true)
unfolding merge_in
synced_add or value vv ds e v h k =
    let a = sync-update ds or.node_id vv true v h k in
    (
      only value a.changed,
      record or { state = insert value a.result or.state },
      add-only or value vv (some ds) a.changed e a.updates,
      merge-only or value a.changed a.result (rw e a.syncs),
      (contains-insert or value a.result a.valid).1 (
        or.node_id,
        counter_at ds or.node_id + 1,
        a.at or.node_id (counter_at ds or.node_id + 1)
            ∙ rw (new_dot_test or.node_id (counter_at ds or.node_id)),
      ),
    )

-- Add and the merge of its delta succeed, and the element is in the set: whatever the caller's
-- context is, if the element's siblings are valid and the counters and the context's are positive
-- ints.
pub contains-merge_add :
    (or : OrSet) (value : Str) (vv : Vv)
    → ((ds : DvvSet Bool)
        → lookup value or.state ≡ some ds
        → IsValid ds × (counter_at ds or.node_id + 1 < i64))
    → IsContext vv
    → (d : OrSet) × (r : OrSet) × (add or value vv ≡ some d)
      × (merge or d ≡ some r)
      × (contains r value ≡ true)
contains-merge_add or value vv v k = elim (Option-cases (lookup value or.state)) [
  | inl e ↦ adopted or value vv e k
  | inr (ds, e) ↦ synced_add or value vv ds e (v ds e).0 (v ds e).1 k
]

-- Remove and the merge of its delta succeed, and the element is in the set afterwards exactly when
-- one of its adds is not covered by the caller's context: the remove takes away the adds that the
-- caller has observed, and those only.
pub contains-merge_remove :
    (or : OrSet) (value : Str) (vv : Vv) (ds : DvvSet Bool)
    → lookup value or.state ≡ some ds
    → IsValid ds
    → counter_at ds or.node_id + 1 < i64
    → IsContext vv
    → (d : OrSet) × (r : OrSet) × (remove or value vv ≡ some d)
      × (merge or d ≡ some r)
      × ((contains r value ≡ true) ↔ Unseen vv ds)
unfolding merge_in
contains-merge_remove or value vv ds e v h k =
    let a = sync-update ds or.node_id vv false v h k in
    let c = contains-insert or value a.result a.valid in
    (
      only value a.changed,
      record or { state = insert value a.result or.state },
      remove-only or value vv ds a.changed e a.updates,
      merge-only or value a.changed a.result (rw e a.syncs),
      (
        λ t.
            let (id, n, q) = c.0 t in
            let w = unseen_left _ (get vv id) n _ (sym (a.at id n) ∙ q) in (id, n, w.0, w.1),
        λ t.
            let (id, n, p, q) = t in
            c.1 (
              id,
              n,
              a.at id n
                  ∙ left_unseen _ (get vv id) n _ p q (old_dot_test ds or.node_id id n true q),
            ),
      ),
    )
