-- ===== src/Crdt/PnCounter/Order.antt =====
-- `Merge` and `IsLessOrEqual` of a PNCounter, as an instance of the store's interface.
use commute.Prelude.{
  str_eq, Str, ◌≡◌, true, arith, ◌&&◌, lookup, Bool-ext, and-true, left-of_and, right-of_and,
}
use commute.Crdt.Replicated.{Replicated}
use commute.Crdt.GCounter
use commute.Crdt.GCounter.Order
use commute.Crdt.GCounter.Order.{at-merge}
use commute.Crdt.PnCounter.{PnCounter, new, merge, is_less_or_equal, IsValid}

-- Both halves of `p` are below those of `q`, node by node.
pub record Below (p q : PnCounter) : Type 0 where
  pub inc : Order.Below p.inc q.inc
  pub dec : Order.Below p.dec q.dec

pub merge-IsValid : (p q : PnCounter) → IsValid p → IsValid (merge p q)
unfolding merge
merge-IsValid p q v = record {
  inc = Order.merge-IsValid p.inc q.inc v.inc;
  dec = Order.merge-IsValid p.dec q.dec v.dec;
}

pub Below-of_test : (p q : PnCounter) → is_less_or_equal p q ≡ true → Below p q
unfolding is_less_or_equal
Below-of_test p q h = record {
  inc = Order.Below-of_test p.inc q.inc (ground arith);
  dec = Order.Below-of_test p.dec q.dec (ground arith);
}

pub test_of_Below : (p q : PnCounter) → IsValid p → Below p q → is_less_or_equal p q ≡ true
unfolding is_less_or_equal
test_of_Below p q v b = ground (
  arith,
  Order.test_of_Below p.inc q.inc v.inc b.inc,
  Order.test_of_Below p.dec q.dec v.dec b.dec,
)

pub merge-Below_left : (p q : PnCounter) → IsValid q → Below p (merge p q)
unfolding merge
merge-Below_left p q v = record {
  inc = λ id. omega (arith, at-merge p.inc q.inc id v.inc);
  dec = λ id. omega (arith, at-merge p.dec q.dec id v.dec);
}

pub merge-Below_right : (p q : PnCounter) → IsValid q → Below q (merge p q)
unfolding merge
merge-Below_right p q v = record {
  inc = λ id. omega (arith, at-merge p.inc q.inc id v.inc);
  dec = λ id. omega (arith, at-merge p.dec q.dec id v.dec);
}

pub merge-Below_least :
    (p q c : PnCounter) → IsValid q → Below p c → Below q c → Below (merge p q) c
unfolding merge
merge-Below_least p q c v b d = record {
  inc = λ id. omega (arith, at-merge p.inc q.inc id v.inc, b.inc id, d.inc id);
  dec = λ id. omega (arith, at-merge p.dec q.dec id v.dec, b.dec id, d.dec id);
}

pub new-IsValid : (node : Str) → IsValid (new node)
unfolding new
new-IsValid node = record { inc = tt; dec = tt }

pub new-Below : (node : Str) (p : PnCounter) → Below (new node) p
unfolding new GCounter.at lookup
new-Below node p = record { inc = λ id. omega arith; dec = λ id. omega arith }

pub Below-refl : (p : PnCounter) → Below p p
Below-refl p = record { inc = λ id. omega arith; dec = λ id. omega arith }

pub Below-trans : (p q r : PnCounter) → Below p q → Below q r → Below p r
Below-trans p q r b d = record {
  inc = λ id. omega (arith, b.inc id, d.inc id);
  dec = λ id. omega (arith, b.dec id, d.dec id);
}

-- A merge of two valid counters is below a counter exactly when both of them are, by the code's own
-- test: `Merge` gives the least upper bound.
pub is_less_or_equal-merge :
    (p q c : PnCounter)
    → IsValid p
    → IsValid q
    → is_less_or_equal (merge p q) c ≡ (is_less_or_equal p c && is_less_or_equal q c)
is_less_or_equal-merge p q c vp vq =
    Bool-ext _ _
      (λ h.
        let b = Below-of_test (merge p q) c h in
        and-true _ _ (test_of_Below p c vp (Below-trans p _ c (merge-Below_left p q vq) b))
          (test_of_Below q c vq (Below-trans q _ c (merge-Below_right p q vq) b)))
      (λ h. test_of_Below _ c (merge-IsValid p q vp) (
        merge-Below_least p q c vq (Below-of_test p c (left-of_and _ _ h))
          (Below-of_test q c (right-of_and _ _ h))))

abbrev pub counters : Replicated PnCounter
counters = record {
  new = new;
  merge = merge;
  is_less_or_equal = is_less_or_equal;
  IsValid = IsValid;
  Below = Below;
  new-IsValid = new-IsValid;
  merge-IsValid = λ p q v w. merge-IsValid p q v;
  below_of_test = λ p q v w h. Below-of_test p q h;
  Below-refl = Below-refl;
  Below-trans = Below-trans;
  new-Below = λ node p v. new-Below node p;
  merge-Below_left = λ p q v w. merge-Below_left p q w;
  merge-Below_right = λ p q v w. merge-Below_right p q w;
  merge-Below_least = λ p q c v w. merge-Below_least p q c w;
}
