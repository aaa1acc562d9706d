-- ===== src/Swim/EventQueue/Order.antt =====
-- The heap order.
use commute.Prelude.{ℕ, zero, suc, ◌<◌, ◌≤◌, List, ◌≡◌, ◌≢◌, arith, length, Bool, ◌∙◌}
use commute.Swim.Types.{Event}
use commute.Swim.EventQueue.{EventItem, sends, parent, swap_items}
use commute.Swim.EventQueue.Array.{tally, length-swap_items, tally-swap_items}

-- Among the first `n` items, no item was sent less often than its parent.
abbrev pub IsHeap : ℕ → List EventItem → Type 0
IsHeap n h = (c : ℕ) → 0 < c → c < n → sends h (parent c) ≤ sends h c

-- The children of `i` were not sent less often than the parent of `i`.
abbrev pub IsBridged : ℕ → List EventItem → ℕ → Type 0
IsBridged n h i = (c : ℕ) → 0 < c → c < n → parent c ≡ i → 0 < i → sends h (parent i) ≤ sends h c

-- All in order but, at most, `i` below its parent.
pub record IsHeapAbove (n : ℕ) (h : List EventItem) (i : ℕ) : Type 0 where
  pub edges : (c : ℕ) → 0 < c → c < n → c ≢ i → sends h (parent c) ≤ sends h c
  pub bridged : IsBridged n h i

-- All in order but, at most, the children of `i` below it.
pub record IsHeapBelow (n : ℕ) (h : List EventItem) (i : ℕ) : Type 0 where
  pub edges : (c : ℕ) → 0 < c → c < n → parent c ≢ i → sends h (parent c) ≤ sends h c
  pub bridged : IsBridged n h i

-- `r` has the items of `h`, the first `n` of them in heap order.
pub record Sifted (n : ℕ) (h r : List EventItem) : Type 0 where
  pub heap : IsHeap n r
  pub size : length r ≡ length h
  pub same : (q : Event → ℕ → Bool) → tally q r ≡ tally q h

pub Sifted-swap :
    (i j : ℕ) {n : ℕ} {h r : List EventItem} → Sifted n (swap_items h i j) r → Sifted n h r
Sifted-swap i j {n} {h} s = record {
  heap = s.heap;
  size = s.size ∙ length-swap_items h i j;
  same = λ q. s.same q ∙ tally-swap_items q h i j;
}

root_least_below :
    (k n : ℕ) (h : List EventItem) (i : ℕ) → IsHeap n h → i < k → i < n → sends h 0 ≤ sends h i
root_least_below zero n h i v l m = absurd (omega arith)
root_least_below (suc k) n h zero v l m = omega arith
root_least_below (suc k) n h (suc i) v l m = omega (
  arith,
  v (suc i) (omega arith) m,
  root_least_below k n h (parent (suc i)) v (omega arith) (omega arith),
)

-- The root of a heap was not sent more often than any other item.
pub root_least : (n : ℕ) (h : List EventItem) (i : ℕ) → IsHeap n h → i < n → sends h 0 ≤ sends h i
root_least n h i v l = root_least_below (suc i) n h i v (omega arith) l
