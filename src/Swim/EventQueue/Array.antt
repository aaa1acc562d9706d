-- ===== src/Swim/EventQueue/Array.antt =====
-- Reads of a heap after its methods, and the items of a heap without their order.
use commute.Prelude.{
  ℕ, zero, suc, ◌<◌, some, List, [], ◌∷◌, ◌++◌, Bool, ◌≡◌, refl, ◌∙◌, ap, arith, if◌then◌else◌,
  nat_beq, length, get_elem?, set, length-set, swap, length-swap, count, count-swap,
}
use commute.Swim.Types.{Event}
use commute.Swim.EventQueue.{EventItem, sends, sends_in, put_index, swap_items}

-- How many items pass a test on the event and how often it was sent.
abbrev pub tally : (Event → ℕ → Bool) → List EventItem → ℕ
tally q h = count (λ (x : EventItem). q x.event x.send_count) h

length-put_index : (h : List EventItem) (i v : ℕ) → length (put_index h i v) ≡ length h
unfolding put_index
length-put_index [] i v = refl
length-put_index (x ∷ h) zero v = refl
length-put_index (x ∷ h) (suc i) v = ap suc (length-put_index h i v)

sends-put_index : (h : List EventItem) (i v c : ℕ) → sends (put_index h i v) c ≡ sends h c
unfolding put_index
sends-put_index [] i v c = refl
sends-put_index (x ∷ h) zero v zero = refl
sends-put_index (x ∷ h) zero v (suc c) = refl
sends-put_index (x ∷ h) (suc i) v zero = refl
sends-put_index (x ∷ h) (suc i) v (suc c) = sends-put_index h i v c

tally-put_index :
    (q : Event → ℕ → Bool) (h : List EventItem) (i v : ℕ) → tally q (put_index h i v) ≡ tally q h
unfolding put_index
tally-put_index q [] i v = refl
tally-put_index q (x ∷ h) zero v = refl
tally-put_index q (x ∷ h) (suc i) v = omega (arith, tally-put_index q h i v)

pub length-swap_items : (h : List EventItem) (i j : ℕ) → length (swap_items h i j) ≡ length h
unfolding swap_items
length-swap_items h i j = omega (
  arith,
  length-put_index (put_index (swap h i j) i i) j j,
  length-put_index (swap h i j) i i,
  length-swap h i j,
)

pub tally-swap_items :
    (q : Event → ℕ → Bool) (h : List EventItem) (i j : ℕ) → tally q (swap_items h i j) ≡ tally q h
unfolding swap_items
tally-swap_items q h i j = omega (
  arith,
  tally-put_index q (put_index (swap h i j) i i) j j,
  tally-put_index q (swap h i j) i i,
  count-swap (λ (x : EventItem). q x.event x.send_count) h i j,
)

get_elem?-set :
    (h : List EventItem) (i c : ℕ) (x : EventItem)
    → i < length h
    → get_elem? (set h i x) c ≡ (if nat_beq i c then some x else get_elem? h c)
get_elem?-set [] i c x l = absurd (omega arith)
get_elem?-set (y ∷ h) zero zero x l = refl
get_elem?-set (y ∷ h) zero (suc c) x l = ground arith
get_elem?-set (y ∷ h) (suc i) zero x l = ground arith
get_elem?-set (y ∷ h) (suc i) (suc c) x l = ground (arith, get_elem?-set h i c x)

pub item_at :
    (h : List EventItem) (i : ℕ) → i < length h → (x : EventItem) × (get_elem? h i ≡ some x)
item_at [] i l = absurd (omega arith)
item_at (x ∷ h) zero l = (x, refl)
item_at (x ∷ h) (suc i) l = item_at h i (omega arith)

get_elem?-swap :
    (h : List EventItem) (i j c : ℕ)
    → i < length h
    → j < length h
    → get_elem? (swap h i j) c ≡ (
        if nat_beq j c then get_elem? h i else if nat_beq i c then get_elem? h j else get_elem? h c)
unfolding swap
get_elem?-swap h i j c hi hj =
    let (x, e) = item_at h i hi in
    let (y, f) = item_at h j hj in
    rw (
      e,
      f,
      get_elem?-set (set h i y) j c x (omega (arith, length-set h i y)),
      get_elem?-set h i c y hi,
    )

pub sends-swap_items :
    (h : List EventItem) (i j c : ℕ)
    → i < length h
    → j < length h
    → sends (swap_items h i j) c
      ≡ (if nat_beq j c then sends h i else if nat_beq i c then sends h j else sends h c)
unfolding swap_items
sends-swap_items h i j c hi hj =
    sends-put_index (put_index (swap h i j) i i) j j c
    ∙ sends-put_index (swap h i j) i i c
    ∙ ap sends_in (get_elem?-swap h i j c hi hj)
    ∙ ground arith

pub sends-append :
    (h : List EventItem) (x : EventItem) (c : ℕ) → c < length h → sends (h ++ x ∷ []) c ≡ sends h c
sends-append [] x c l = absurd (omega arith)
sends-append (y ∷ h) x zero l = refl
sends-append (y ∷ h) x (suc c) l = sends-append h x c (omega arith)
