-- ===== src/Crdt/OrSet/Observed.antt =====
-- What an observed remove removes, and that an add is seen.
use mathlib.Core.Option.{some-injective}
use commute.Prelude.{
  str_eq, ℕ, zero, suc, ◌-◌, ◌<◌, Str, Option, none, some, List, [], ◌∷◌, ◌++◌, Bool, true, false,
  ◌≡◌, ◌↔◌, inl, inr, refl, ◌∙◌, arith, if◌then◌else◌, str_beq, str_beq_iff, Bool-cases,
  Option-cases, lookup, lookup_head, lookup_tail, lookup-insert, insert, Distinct, length,
  get_elem?,
}
use commute.Crdt.DvvSet
use commute.Crdt.DvvSet.{DvvEntry, DvvSet, Vv, get, update, sync, IsEntry, IsValid}
use commute.Crdt.DvvSet.Entry.{sibling}
use commute.Crdt.DvvSet.Update.{sibling_at}
use commute.Crdt.DvvSet.Absorb.{left}
use commute.Crdt.OrSet.{OrSet, any_add, contains, only, merge, merge_from, merge_in}

-- Some add of the element is left: a sibling that is true.
abbrev HasAdd : DvvSet Bool → Type 0
HasAdd ds = (id : Str) × (c : ℕ) × (sibling_at ds id c ≡ some true)

any_add_of_index : (l : List Bool) (i : ℕ) → get_elem? l i ≡ some true → any_add l ≡ true
any_add_of_index (v ∷ l) zero h = ground arith
any_add_of_index (v ∷ l) (suc i) h = ground (arith, any_add_of_index l i h)
any_add_of_index [] i h = cc

index_of_any_add :
    (l : List Bool) → any_add l ≡ true → (i : ℕ) × (i < length l) × (get_elem? l i ≡ some true)
index_of_any_add [] h = cc
index_of_any_add (true ∷ l) h = (0, omega arith, refl)
index_of_any_add (false ∷ l) h = let (i, b, e) = index_of_any_add l h in (suc i, omega arith, e)

any_add-append : (l m : List Bool) → any_add (l ++ m) ≡ (if any_add l then true else any_add m)
any_add-append [] m = refl
any_add-append (v ∷ l) m = ground (arith, any_add-append l m)

sibling_index :
    (e : DvvEntry Bool) (i : ℕ)
    → IsEntry e
    → i < length e.values
    → get_elem? e.values i ≡ some true
    → sibling e (e.counter - i) ≡ some true
sibling_index e i v b h =
    let m : e.counter - (e.counter - i) ≡ i = omega (arith, v.few) in rw m (ground arith)

later :
    (id : Str) (e : DvvEntry Bool) (ds : DvvSet Bool) (j : Str) (c : ℕ)
    → Distinct ((id, e) ∷ ds)
    → sibling_at ds j c ≡ some true
    → sibling_at ((id, e) ∷ ds) j c ≡ some true
later id e ds j c d f = elim (Option-cases (lookup j ds)) [
  | inl q ↦ let f' : none ≡ some true = rw q at f in cc
  | inr (x, q) ↦ rw (lookup_tail id e ds j x d q) (rw q at f)
]

add_of_values : (ds : DvvSet Bool) → IsValid ds → any_add (DvvSet.values ds) ≡ true → HasAdd ds
unfolding DvvSet.values
add_of_values [] v h = cc
add_of_values ((id, e) ∷ ds) v h = elim (Bool-cases (any_add e.values)) [
  | inl q ↦
      let (i, b, f) = index_of_any_add e.values q in
      (
        id,
        e.counter - i,
        rw (lookup_head id e ds) (sibling_index e i (v.entries id e (lookup_head id e ds)) b f),
      )
  | inr q ↦
      let tail : IsValid ds = record {
        distinct = v.distinct.1;
        entries = λ j x f. v.entries j x (lookup_tail id e ds j x v.distinct f);
      } in
      let (j, c, f) =
        add_of_values ds tail (rw (any_add-append e.values (DvvSet.values ds), q) at h) in
      (j, c, later id e ds j c v.distinct f)
]

any_add_of_entry :
    (ds : DvvSet Bool) (id : Str) (e : DvvEntry Bool)
    → lookup id ds ≡ some e
    → any_add e.values ≡ true
    → any_add (DvvSet.values ds) ≡ true
unfolding DvvSet.values lookup
any_add_of_entry [] id e h k = cc
any_add_of_entry ((j, x) ∷ ds) id e h k = elim (Bool-cases (str_beq j id)) [
  | inl q ↦
      let f : x ≡ e = some-injective x e (rw q at h) in
      rw (any_add-append x.values (DvvSet.values ds), f, k)
  | inr q ↦
      let r = any_add_of_entry ds id e (rw q at h) k in
      rw (any_add-append x.values (DvvSet.values ds), r) (ground arith)
]

values_of_add : (ds : DvvSet Bool) → HasAdd ds → any_add (DvvSet.values ds) ≡ true
values_of_add ds (id, c, h) = elim (Option-cases (lookup id ds)) [
  | inl q ↦ let f : none ≡ some true = rw q at h in cc
  | inr (e, q) ↦
      let f : sibling e c ≡ some true = rw q at h in
      any_add_of_entry ds id e q (any_add_of_index e.values (e.counter - c) (ground arith))
]

-- An element is in a set exactly when one of its siblings is an add.
pub contains_iff :
    (or : OrSet) (value : Str) (ds : DvvSet Bool)
    → lookup value or.state ≡ some ds
    → IsValid ds
    → (contains or value ≡ true) ↔ HasAdd ds
unfolding contains
contains_iff or value ds e v = rw e (add_of_values ds v, values_of_add ds)

pub merge-only :
    (or : OrSet) (value : Str) (u r : DvvSet Bool)
    → merge_in (lookup value or.state) u ≡ some r
    → merge or (only value u) ≡ some (record or { state = insert value r or.state })
unfolding merge merge_from
merge-only or value u r h = rw (h, merge_from)

pub contains-insert :
    (or : OrSet) (value : Str) (r : DvvSet Bool)
    → IsValid r
    → (contains (record or { state = insert value r or.state }) value ≡ true) ↔ HasAdd r
contains-insert or value r v =
    contains_iff (record or { state = insert value r or.state }) value r
      (lookup-insert value value r or.state ∙ rw ((str_beq_iff value value).1 refl)) v

-- An add of the element that a context does not cover.
abbrev pub Unseen : Vv → DvvSet Bool → Type 0
Unseen vv ds = (id : Str) × (c : ℕ) × (get vv id < c) × (sibling_at ds id c ≡ some true)

pub unseen_left :
    (is_new : Bool) (k c : ℕ) (a : Option Bool)
    → left is_new k c false a ≡ some true
    → (k < c) × (a ≡ some true)
unseen_left true k c a h = cc
unseen_left false k c a h = (ground arith, ground arith)

pub left_unseen :
    (is_new : Bool) (k c : ℕ) (a : Option Bool)
    → k < c
    → a ≡ some true
    → is_new ≡ false
    → left is_new k c false a ≡ some true
left_unseen true k c a h e q = cc
left_unseen false k c a h e q = ground arith
