-- ===== src/Swim/EventQueue/Sifting.antt =====
-- `up` and `down` restore the heap order.
use commute.Prelude.{
  ℕ, zero, suc, ◌+◌, ◌*◌, ◌<◌, ◌≤◌, List, ◌≡◌, ◌⊎◌, inl, inr, refl, ◌∙◌, arith, length,
  if◌then◌else◌, ltb, leb, nat_beq, Bool-cases,
}
use commute.Swim.EventQueue.{EventItem, sends, less, parent, swap_items, up, child, down}
use commute.Swim.EventQueue.Array.{length-swap_items, sends-swap_items}
use commute.Swim.EventQueue.Order.{IsHeap, IsHeapAbove, IsHeapBelow, Sifted, Sifted-swap}

already_Sifted : (n : ℕ) (h : List EventItem) → IsHeap n h → Sifted n h h
already_Sifted n h v = record { heap = v; size = refl; same = λ q. refl }

module _ (n : ℕ) (h : List EventItem) (inside : n ≤ length h) where
  swap-IsHeapAbove :
      (i : ℕ)
      → i < n
      → 0 < i
      → sends h i < sends h (parent i)
      → IsHeapAbove n h i
      → IsHeapAbove n (swap_items h (parent i) i) (parent i)
  swap-IsHeapAbove i l pos below v =
      let at : (c : ℕ)
          → sends (swap_items h (parent i) i) c ≡ (
              if nat_beq i c
              then sends h (parent i)
              else if nat_beq (parent i) c
              then sends h i
              else sends h c) =
        (λ c. sends-swap_items h (parent i) i c (omega arith) (omega arith)) in
      record {
        edges = λ c p q r. ground (arith, at c, at (parent c), v.edges c, v.bridged c);
        bridged = λ c p q r s.
            ground (arith, at c, at (parent (parent i)), v.edges c, v.edges (parent i));
      }

  -- A child of `i` that was sent no more often than the others.
  record IsLeastChild (i m : ℕ) : Type 0 where
    below : m < n
    child_of : (m ≡ 2 * i + 1) ⊎ (m ≡ 2 * i + 2)
    least : (c : ℕ) → 0 < c → c < n → parent c ≡ i → sends h m ≤ sends h c

  child-IsLeastChild : (i : ℕ) → 2 * i + 1 < n → IsLeastChild i (child h i n)
  unfolding child less
  child-IsLeastChild i l = grind arith

  swap-IsHeapBelow :
      (i m : ℕ)
      → IsLeastChild i m
      → sends h m < sends h i
      → IsHeapBelow n h i
      → IsHeapBelow n (swap_items h i m) m
  swap-IsHeapBelow i m s lower v =
      let at : (c : ℕ)
          → sends (swap_items h i m) c
            ≡ (if nat_beq m c then sends h i else if nat_beq i c then sends h m else sends h c) =
        (λ c.
          sends-swap_items h i m c (ground (arith, s.below, s.child_of))
            (omega (arith, s.below))) in
      record {
        edges = λ c p q r.
            ground
              (arith, at c, at (parent c), v.edges c, v.bridged m, s.least c, s.child_of, s.below);
        bridged = λ c p q r t. ground (arith, at c, at (parent m), v.edges c, s.child_of);
      }

-- `up` turns a heap with one item too low in the tree into a heap of the same items.
pub up_restores :
    (rounds n : ℕ) (h : List EventItem) (i : ℕ)
    → n ≤ length h
    → i < rounds
    → i < n
    → IsHeapAbove n h i
    → Sifted n h (up rounds h i)
unfolding up less
up_restores zero n h i inside f l v = absurd (omega arith)
up_restores (suc rounds) n h i inside f l v = elim (Bool-cases (nat_beq (parent i) i)) [
  | inl q ↦ rw q (already_Sifted n h (λ c p m. v.edges c p m (ground arith)))
  | inr q ↦ elim (Bool-cases (ltb (sends h i) (sends h (parent i)))) [
    | inl r ↦
        let size = length-swap_items h (parent i) i in
        rw (q, r, up, less)
          (Sifted-swap (parent i) i (
            up_restores rounds n (swap_items h (parent i) i) (parent i) (omega (arith, size))
              (ground arith) (omega arith)
              (swap-IsHeapAbove n h inside i l (ground arith) (ground arith) v)))
    | inr r ↦ rw (q, r, up, less) (already_Sifted n h (λ c p m. ground (arith, v.edges c)))
  ]
]

-- `down` turns a heap with one item too high in the tree into a heap of the same items.
pub down_restores :
    (rounds n : ℕ) (h : List EventItem) (i : ℕ)
    → n ≤ length h
    → n ≤ i + rounds
    → IsHeapBelow n h i
    → Sifted n h (down rounds h i n)
unfolding down less
down_restores zero n h i inside f v = already_Sifted n h (λ c p m. ground (arith, v.edges c))
down_restores (suc rounds) n h i inside f v = elim (Bool-cases (leb n (2 * i + 1))) [
  | inl q ↦ rw q (already_Sifted n h (λ c p m. ground (arith, v.edges c)))
  | inr q ↦
      let s = child-IsLeastChild n h inside i (ground arith) in
      elim (Bool-cases (ltb (sends h (child h i n)) (sends h i))) [
        | inl r ↦
            rw (q, r, down, less)
              (Sifted-swap i (child h i n) (
                down_restores rounds n (swap_items h i (child h i n)) (child h i n)
                  (omega (arith, length-swap_items h i (child h i n))) (ground (arith, s.child_of))
                  (swap-IsHeapBelow n h inside i (child h i n) s (ground arith) v)))
        | inr r ↦
            rw (q, r, down, less)
              (already_Sifted n h (λ c p m. ground (arith, v.edges c, s.least c)))
      ]
]

-- `down` leaves the items from `n` on where they are.
pub sends-down :
    (rounds n : ℕ) (h : List EventItem) (i c : ℕ)
    → n ≤ length h
    → n ≤ c
    → sends (down rounds h i n) c ≡ sends h c
unfolding down less child
sends-down zero n h i c inside l = refl
sends-down (suc rounds) n h i c inside l = elim (Bool-cases (leb n (2 * i + 1))) [
  | inl q ↦ rw q
  | inr q ↦
      let s = child-IsLeastChild n h inside i (ground arith) in
      elim (Bool-cases (less h (child h i n) i)) [
        | inl r ↦
            rw (q, r, down)
              (sends-down rounds n (swap_items h i (child h i n)) (child h i n) c
                  (omega (arith, length-swap_items h i (child h i n))) l
                ∙ sends-swap_items h i (child h i n) c (omega (arith, s.below))
                    (omega (arith, s.below))
                ∙ ground (arith, s.below))
        | inr r ↦ rw (q, r, down)
      ]
]
