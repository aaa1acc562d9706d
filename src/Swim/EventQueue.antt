-- ===== src/Swim/EventQueue.antt =====
-- internal/swim/event.go: the queue of membership events, a binary heap ordered by how often an event
-- was sent. `up`, `down`, `heap_push` and `heap_pop` are those of container/heap over the methods of
-- eventHeap; they index below the length only. The heap's pointers are the items themselves.
pub mod Array
pub mod Order
pub mod Sifting
pub mod Pop
use commute.Prelude.{
  ℕ, zero, suc, ◌+◌, ◌-◌, ◌*◌, ◌/◌, min, Option, none, some, List, [], ◌∷◌, ◌++◌, Bool, true, false,
  if◌then◌else◌, ltb, leb, nat_beq, length, get_elem?, take, swap,
}
use commute.Swim.Types.{Event}

-- EventItem
pub record EventItem : Type 0 where
  pub event : Event
  pub send_count : ℕ
  pub index : ℕ

abbrev pub sends_in : Option EventItem → ℕ
sends_in none = 0
sends_in (some x) = x.send_count

-- h[i].SendCount
abbrev pub sends : List EventItem → ℕ → ℕ
sends h i = sends_in (get_elem? h i)

-- eventHeap.Less
unfoldable pub less : List EventItem → ℕ → ℕ → Bool
less h i j = ltb (sends h i) (sends h j)

-- h[i].index = v
unfoldable pub put_index : List EventItem → ℕ → ℕ → List EventItem
put_index [] i v = []
put_index (x ∷ h) zero v = record x { index = v } ∷ h
put_index (x ∷ h) (suc i) v = x ∷ put_index h i v

-- eventHeap.Swap
unfoldable pub swap_items : List EventItem → ℕ → ℕ → List EventItem
unfolding swap put_index
swap_items h i j = put_index (put_index (swap h i j) i i) j j

abbrev pub parent : ℕ → ℕ
parent c = (c - 1) / 2

-- heap.up, from index `j`, in `rounds` rounds at most
unfoldable pub up : ℕ → List EventItem → ℕ → List EventItem
unfolding less swap_items
up zero h j = h
up (suc rounds) h j = if nat_beq (parent j) j then h else elim (less h j (parent j)) [
  | true ↦ up rounds (swap_items h (parent j) j) (parent j)
  | false ↦ h
]

-- The child of `i` that down compares with it: the right one if it is below `n` and less.
unfoldable pub child : List EventItem → ℕ → ℕ → ℕ
unfolding less
child h i n =
    if ltb (2 * i + 2) n
    then if less h (2 * i + 2) (2 * i + 1) then 2 * i + 2 else 2 * i + 1
    else 2 * i + 1

-- heap.down, from index `i` in the first `n` items, in `rounds` rounds at most
unfoldable pub down : ℕ → List EventItem → ℕ → ℕ → List EventItem
unfolding child less swap_items
down zero h i n = h
down (suc rounds) h i n = if leb n (2 * i + 1) then h else elim (less h (child h i n) i) [
  | true ↦ down rounds (swap_items h i (child h i n)) (child h i n) n
  | false ↦ h
]

-- heap.Push, with eventHeap.Push: an index has at most `length` ancestors.
unfoldable pub heap_push : EventItem → List EventItem → List EventItem
unfolding up
heap_push x h = up (length h + 1) (h ++ record x { index = length h } ∷ []) (length h)

-- EventQueue.Push
unfoldable pub push : List EventItem → List EventItem → List EventItem
unfolding heap_push
push [] h = h
push (x ∷ items) h = push items (heap_push x h)

last_item : List EventItem → Option EventItem → Option (EventItem × List EventItem)
last_item h none = none
last_item h (some x) = some (x, take (length h - 1) h)

-- heap.Pop, with eventHeap.Pop; none is the panic on an empty heap.
unfoldable pub heap_pop : List EventItem → Option (EventItem × List EventItem)
unfolding down swap_items last_item
heap_pop h =
    let sifted = down (length h) (swap_items h 0 (length h - 1)) 0 (length h - 1) in
    last_item sifted (get_elem? sifted (length h - 1))

-- The loop of Pop.
unfoldable pub pop_loop : ℕ → List EventItem → Option (List EventItem × List EventItem)
unfolding heap_pop
pop_loop zero h = some ([], h)
pop_loop (suc n) h = elim (heap_pop h) [
  | none ↦ none
  | some r ↦ elim (pop_loop n r.1) [ none ↦ none | some s ↦ some (r.0 ∷ s.0, s.1) ]
]

-- EventQueue.Pop
unfoldable pub pop : ℕ → List EventItem → Option (List EventItem × List EventItem)
unfolding pop_loop
pop n h = pop_loop (min n (length h)) h
