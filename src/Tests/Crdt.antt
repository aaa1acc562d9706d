-- ===== src/Tests/Crdt.antt =====
-- The replicated types on small values.
use commute.Prelude.{
  str_eq, ℕ, ◌+◌, ◌<◌, Str, none, some, [], ◌∷◌, Bool, true, ◌&&◌, ◌≡◌, ◌↔◌, inl, inr, refl, subst,
  arith, max, if◌then◌else◌, ltb, nat_beq, str_beq, str_beq_iff, Bool-cases, lookup, or_else,
  get_elem?, ap, i64,
}
use mathlib.Core.Option.{some-injective}
use commute.Crdt.GCounter
use commute.Crdt.GCounter.{GCounter, entries}
use commute.Crdt.PnCounter
use commute.Crdt.PnCounter.{PnCounter}
use commute.Crdt.PnCounter.Order.{is_less_or_equal-merge}
use commute.Crdt.LwwRegister
use commute.Crdt.LwwRegister.{LwwEntry, LwwRegister}
use commute.Crdt.LwwRegister.Order.{merge_comm, merge-set_stale}
use commute.Crdt.DvvSet
use commute.Crdt.DvvSet.{DvvEntry, DvvSet, Vv, get, update, sync, IsEntry, IsValid}
use commute.Crdt.DvvSet.Entry.{survives}
use commute.Crdt.DvvSet.Update.{sibling_at, counter_at, sibling-update}
use commute.Crdt.DvvSet.Siblings.{AgreeAll, sibling-sync, is_less_or_equal-sync}
use commute.Crdt.OrSet
use commute.Crdt.OrSet.{OrSet}
use commute.Crdt.OrSet.Observed.{Unseen}
use commute.Crdt.OrSet.Writes.{contains-merge_add, contains-merge_remove}
use commute.Tests.{node_a, node_b, node_c}

abbrev pub three_and_four : GCounter
three_and_four = record { node_id = node_a; counters = some ((node_a, 3) ∷ (node_b, 4) ∷ []) }

abbrev one_of_b : GCounter
one_of_b = record { node_id = node_b; counters = some ((node_b, 1) ∷ []) }

three_and_four-IsValid : GCounter.IsValid three_and_four
unfolding lookup
three_and_four-IsValid = (refl, (refl, tt))

one_of_b-IsValid : GCounter.IsValid one_of_b
unfolding lookup
one_of_b-IsValid = (refl, tt)

abbrev seven_less_one : PnCounter
seven_less_one = record { inc = three_and_four; dec = one_of_b }

abbrev one_less_seven : PnCounter
one_less_seven = record { inc = one_of_b; dec = three_and_four }

is_less_or_equal-merge_example :
    PnCounter.is_less_or_equal (PnCounter.merge seven_less_one one_less_seven) seven_less_one ≡ (
      PnCounter.is_less_or_equal seven_less_one seven_less_one
      && PnCounter.is_less_or_equal one_less_seven seven_less_one)
is_less_or_equal-merge_example =
    is_less_or_equal-merge seven_less_one one_less_seven seven_less_one
      (record { inc = three_and_four-IsValid; dec = one_of_b-IsValid })
      (record { inc = one_of_b-IsValid; dec = three_and_four-IsValid })

abbrev first_write : LwwRegister
first_write = record {
  node_id = node_a;
  entry = record { writer_id = node_a; timestamp = 5; value = node_a };
}

abbrev second_write : LwwRegister
second_write = record {
  node_id = node_b;
  entry = record { writer_id = node_b; timestamp = 5; value = node_b };
}

abbrev third_write : LwwRegister
third_write = record {
  node_id = node_b;
  entry = record { writer_id = node_b; timestamp = 6; value = [] };
}

merge_comm_example :
    (LwwRegister.merge first_write second_write).entry
    ≡ (LwwRegister.merge second_write first_write).entry
merge_comm_example =
    merge_comm first_write second_write
      (λ s. absurd (omega (arith, ap (λ (l : Str). or_else (get_elem? l 0) 0) s.writer_id)))

merge-set_stale_example :
    LwwRegister.merge first_write (LwwRegister.set first_write 5 node_b) ≡ first_write
merge-set_stale_example = merge-set_stale first_write 5 node_b (omega arith) refl

single-IsValid : {T : Type 0} (id : Str) (e : DvvEntry T) → IsEntry e → IsValid ((id, e) ∷ [])
unfolding lookup
single-IsValid id e v = record {
  distinct = (refl, tt);
  entries = λ j x q. elim (Bool-cases (str_beq id j)) [
    | inl r ↦ subst IsEntry (some-injective e x (rw r at q)) v
    | inr r ↦ absurd (let f : none ≡ some x = rw r at q in cc)
  ];
}

abbrev write_of_a : DvvEntry ℕ
write_of_a = record { counter = 2; values = 7 ∷ [] }

abbrev write_of_b : DvvEntry ℕ
write_of_b = record { counter = 1; values = 8 ∷ [] }

abbrev at_a : DvvSet ℕ
at_a = (node_a, write_of_a) ∷ []

abbrev at_b : DvvSet ℕ
at_b = (node_b, write_of_b) ∷ []

at_a-IsValid : IsValid at_a
at_a-IsValid = single-IsValid node_a write_of_a (record { few = omega arith; small = omega arith })

at_b-IsValid : IsValid at_b
at_b-IsValid = single-IsValid node_b write_of_b (record { few = omega arith; small = omega arith })

at_a-AgreeAll : AgreeAll at_a at_b
unfolding lookup
at_a-AgreeAll id c x y p q = elim (Bool-cases (str_beq node_a id)) [
  | inl r ↦ let f : none ≡ some y = rw (← (str_beq_iff node_a id).0 r) at q in absurd (cc)
  | inr r ↦ let f : none ≡ some x = rw r at p in absurd cc
]

sibling-sync_example :
    (r : DvvSet ℕ) × (sync at_a at_b ≡ some r)
    × IsValid r
    × ((id : Str) → counter_at r id ≡ max (counter_at at_a id) (counter_at at_b id))
    × ((id : Str) (c : ℕ)
        → sibling_at r id c
          ≡ survives
              (counter_at at_a id)
              (counter_at at_b id)
              c
              (sibling_at at_a id c)
              (sibling_at at_b id c))
sibling-sync_example = sibling-sync at_a at_b at_a-IsValid at_b-IsValid at_a-AgreeAll

is_less_or_equal-sync_example :
    (r : DvvSet ℕ) × (sync at_a at_b ≡ some r)
    × (DvvSet.is_less_or_equal r at_b
        ≡ (DvvSet.is_less_or_equal at_a at_b && DvvSet.is_less_or_equal at_b at_b))
is_less_or_equal-sync_example = is_less_or_equal-sync at_a at_b at_b at_a-IsValid at_b-IsValid

-- A context that covers the first of node a's two writes.
abbrev first_of_a : Vv
first_of_a = (node_a, 1) ∷ []

first_of_a-small : (id : Str) → get first_of_a id < i64
unfolding lookup
first_of_a-small id = elim (Bool-cases (str_beq node_a id)) [
  | inl q ↦ rw q (omega arith)
  | inr q ↦ rw q (omega arith)
]

sibling-update_example :
    (r : DvvSet ℕ) × (update at_a node_a first_of_a 9 ≡ some r)
    × ((id : Str) (c : ℕ)
        → sibling_at r id c ≡ (
            if str_beq node_a id && nat_beq c (counter_at at_a node_a + 1)
            then some 9
            else if ltb (get first_of_a id) c
            then sibling_at at_a id c
            else none))
unfolding lookup
sibling-update_example = sibling-update at_a node_a first_of_a 9 at_a-IsValid (omega arith)

abbrev added : DvvEntry Bool
added = record { counter = 2; values = true ∷ true ∷ [] }

abbrev markers : DvvSet Bool
markers = (node_a, added) ∷ []

markers-IsValid : IsValid markers
markers-IsValid = single-IsValid node_a added (record { few = omega arith; small = omega arith })

-- Node b's set, with the element that node a added twice.
abbrev a_set : OrSet
a_set = record { node_id = node_b; state = (node_c, markers) ∷ [] }

contains-merge_remove_example :
    (d : OrSet) × (r : OrSet) × (OrSet.remove a_set node_c first_of_a ≡ some d)
    × (OrSet.merge a_set d ≡ some r)
    × ((OrSet.contains r node_c ≡ true) ↔ Unseen first_of_a markers)
unfolding lookup
contains-merge_remove_example =
    contains-merge_remove a_set node_c first_of_a markers refl markers-IsValid (omega arith)
      first_of_a-small

contains-merge_add_example :
    (d : OrSet) × (r : OrSet) × (OrSet.add a_set node_c first_of_a ≡ some d)
    × (OrSet.merge a_set d ≡ some r)
    × (OrSet.contains r node_c ≡ true)
unfolding lookup
contains-merge_add_example =
    contains-merge_add a_set node_c first_of_a
      (λ ds e. (
        subst IsValid (some-injective markers ds e) markers-IsValid,
        subst (λ t. counter_at t node_b + 1 < i64) (some-injective markers ds e) (omega arith),
      ))
      first_of_a-small
