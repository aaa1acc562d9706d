-- ===== src/Crdt/PnCounter/Total.antt =====
-- `Value` of a PNCounter in the integers, where no total reaches 2^63.
use commute.Prelude.{
  str_eq, ℕ, ◌+◌, ◌<◌, ◌≡◌, refl, arith, merge_with, pos, sub_ℕ, ◌+ℤ◌, ◌-ℤ◌, sub_ℕ-add, sub_ℕ-sub,
  i64,
}
use commute.Crdt.GCounter
use commute.Crdt.GCounter.{GCounter, entries}
use commute.Crdt.GCounter.Total.{total, value-total, total-merge-increment}
use commute.Crdt.PnCounter.{PnCounter, value, increment, decrement, merge, zero_counter}

-- `Value` is the sum of the increments less the sum of the decrements, if both sums are below 2^63.
value-sub :
    (pn : PnCounter)
    → total (entries pn.inc) < i64
    → total (entries pn.dec) < i64
    → value pn ≡ sub_ℕ (total (entries pn.inc)) (total (entries pn.dec))
unfolding value
value-sub pn hi hd = ground (arith, value-total pn.inc, value-total pn.dec)

merge-zero : (g : GCounter) → total (entries (GCounter.merge g zero_counter)) ≡ total (entries g)
unfolding GCounter.merge merge_with
merge-zero g = refl

-- Merging the delta of `Increment(n)` adds n to the value, if the sums stay below 2^63.
pub value-merge-increment :
    (pn : PnCounter) (n : ℕ)
    → total (entries pn.inc) + n < i64
    → total (entries pn.dec) < i64
    → value (merge pn (increment pn n)) ≡ value pn +ℤ pos n
unfolding merge increment
value-merge-increment pn n hi hd =
    rw
      (
        value-sub (merge pn (increment pn n)) (omega (arith, total-merge-increment pn.inc n))
            (omega (arith, merge-zero pn.dec)),
        value-sub pn (omega arith) hd,
        total-merge-increment pn.inc n (omega arith),
        merge-zero pn.dec,
      )
      (sub_ℕ-add _ _ n)

-- Merging the delta of `Decrement(n)` subtracts n from the value, if the sums stay below 2^63.
pub value-merge-decrement :
    (pn : PnCounter) (n : ℕ)
    → total (entries pn.inc) < i64
    → total (entries pn.dec) + n < i64
    → value (merge pn (decrement pn n)) ≡ value pn -ℤ pos n
unfolding merge decrement
value-merge-decrement pn n hi hd =
    rw
      (
        value-sub (merge pn (decrement pn n)) (omega (arith, merge-zero pn.inc))
            (omega (arith, total-merge-increment pn.dec n)),
        value-sub pn hi (omega arith),
        total-merge-increment pn.dec n (omega arith),
        merge-zero pn.inc,
      )
      (sub_ℕ-sub _ _ n)
