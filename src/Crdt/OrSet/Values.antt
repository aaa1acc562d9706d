-- ===== src/Crdt/OrSet/Values.antt =====
-- Values and Contains agree.
use commute.Prelude.{
  str_eq, Str, Map, none, some, [], ◌∷◌, Bool, true, ◌≡◌, inl, inr, refl, sym, ◌∙◌, ap, arith,
  str_beq, str_beq_iff, Bool-cases, Option-cases, lookup, contains_func,
}
use commute.Crdt.DvvSet.{DvvSet}
use commute.Crdt.OrSet.{OrSet, contains, contains_in, values, values_from}

listed :
    (or : OrSet) (w : Str) (m : Map Str (DvvSet Bool)) (ds : DvvSet Bool)
    → lookup w m ≡ some ds
    → contains or w ≡ true
    → contains_func (str_beq w) (values_from or m) ≡ true
unfolding lookup values_from contains_func
listed or w [] ds e c = cc
listed or w ((value, x) ∷ m) ds e c = elim (Bool-cases (str_beq value w)) [
  | inl q ↦
      let same = (str_beq_iff value w).0 q in
      let here : contains or value ≡ true = ap (contains or) same ∙ c in
      rw (here, contains_func) (rw ((str_beq_iff w value).1 (sym same)) refl)
  | inr q ↦
      let rest = listed or w m ds (rw q at e) c in
      elim (Bool-cases (contains or value)) [
        | inl r ↦ rw (r, contains_func) (ground arith)
        | inr r ↦ rw r rest
      ]
]

-- An element of the set is one of its values.
pub values-contains :
    (or : OrSet) (w : Str) → contains or w ≡ true → contains_func (str_beq w) (values or) ≡ true
unfolding values contains
values-contains or w c = elim (Option-cases (lookup w or.state)) [
  | inl e ↦ absurd (let f : contains_in none ≡ true = ap contains_in (sym e) ∙ c in cc)
  | inr (ds, e) ↦ listed or w or.state ds e c
]
