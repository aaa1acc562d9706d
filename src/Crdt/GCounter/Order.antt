-- ===== src/Crdt/GCounter/Order.antt =====
-- `Merge` and `IsLessOrEqual` of a GCounter in the pointwise order of its counts.
use commute.Prelude.{
  str_eq, ◌≤◌, max, Str, ◌≡◌, ◌↔◌, true, arith, lookup, lookup-merge_with, merge_with-Distinct,
  at-range_all, range_all-of_at, leb, leb→le, le→leb, Option-cases, inl, inr, Bool-ext, and-true,
  left-of_and, right-of_and, ◌&&◌,
}
use commute.Crdt.GCounter.{GCounter, entries, at, keep_max, merge, is_less_or_equal, IsValid}

-- Every node's count in `g` is at most its count in `h`.
abbrev pub Below : GCounter → GCounter → Type 0
Below g h = (id : Str) → at g id ≤ at h id

-- After a merge every node has the larger of its two counts.
pub at-merge :
    (g other : GCounter) (id : Str)
    → IsValid other
    → at (merge g other) id ≡ max (at g id) (at other id)
unfolding at merge
at-merge g other id v =
    rw (lookup-merge_with keep_max (entries g) (entries other) id v) (ground arith)

pub merge-IsValid : (g other : GCounter) → IsValid g → IsValid (merge g other)
unfolding merge
merge-IsValid g other v = merge_with-Distinct keep_max (entries g) (entries other) v

pub Below-of_test : (g other : GCounter) → is_less_or_equal g other ≡ true → Below g other
unfolding is_less_or_equal at
Below-of_test g other h id = elim (Option-cases (lookup id (entries g))) [
  | inl e ↦ rw e (omega arith)
  | inr (v, e) ↦ rw e (leb→le _ _ (at-range_all (λ j w. leb w (at other j)) (entries g) id v h e))
]

pub test_of_Below :
    (g other : GCounter) → IsValid g → Below g other → is_less_or_equal g other ≡ true
unfolding is_less_or_equal at
test_of_Below g other v h =
    range_all-of_at (λ id w. leb w (at other id)) (entries g) v
      (λ id w e. le→leb _ _ (rw e at (h id)))

-- `IsLessOrEqual` decides the pointwise order of the counts, if the map's keys are distinct.
is_less_or_equal_iff :
    (g other : GCounter)
    → IsValid g
    → (is_less_or_equal g other ≡ true) ↔ ((id : Str) → at g id ≤ at other id)
is_less_or_equal_iff g other v = (Below-of_test g other, test_of_Below g other v)

-- A merge is below a counter exactly when both of its arguments are, by the code's own test: `Merge`
-- gives the least upper bound.
pub is_less_or_equal-merge :
    (g other c : GCounter)
    → IsValid g
    → IsValid other
    → is_less_or_equal (merge g other) c ≡ (is_less_or_equal g c && is_less_or_equal other c)
is_less_or_equal-merge g other c vg vo =
    Bool-ext _ _
      (λ h.
        and-true _ _
          (test_of_Below g c vg
            (λ id. omega (arith, at-merge g other id vo, Below-of_test _ c h id)))
          (test_of_Below other c vo
            (λ id. omega (arith, at-merge g other id vo, Below-of_test _ c h id))))
      (λ h. test_of_Below _ c (merge-IsValid g other vg) λ id. omega (
        arith,
        at-merge g other id vo,
        Below-of_test g c (left-of_and _ _ h) id,
        Below-of_test other c (right-of_and _ _ h) id,
      ))
