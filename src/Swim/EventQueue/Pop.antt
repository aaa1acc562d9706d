-- ===== src/Swim/EventQueue/Pop.antt =====
-- `Push` and `Pop`: the items of the queue, and which of them come first.
use commute.Prelude.{
  ℕ, zero, suc, ◌+◌, ◌-◌, ◌<◌, ◌≤◌, min, Option, some, List, [], ◌∷◌, ◌++◌, Bool, ◌≡◌, refl, sym,
  ◌∙◌, ap, arith, if◌then◌else◌, ltb, nat_beq, length, length-append, length-take, get_elem?, take,
  count-append, hit,
}
use commute.Swim.Types.{Event}
use commute.Swim.EventQueue.{
  EventItem, sends, sends_in, parent, swap_items, up, down, heap_push, push, last_item, heap_pop,
  pop_loop, pop,
}
use commute.Swim.EventQueue.Array.{
  tally, item_at, sends-append, sends-swap_items, length-swap_items,
}
use commute.Swim.EventQueue.Order.{IsHeap, Sifted, Sifted-swap, root_least}
use commute.Swim.EventQueue.Sifting.{up_restores, down_restores, sends-down}

abbrev pub IsQueue : List EventItem → Type 0
IsQueue h = IsHeap (length h) h

-- Whether a test on events and counts holds of an item.
abbrev pub passes : (Event → ℕ → Bool) → EventItem → ℕ
passes q x = hit (λ (y : EventItem). q y.event y.send_count) x

pub record Pushed (x : EventItem) (h r : List EventItem) : Type 0 where
  pub queue : IsQueue r
  pub size : length r ≡ length h + 1
  pub same : (q : Event → ℕ → Bool) → tally q r ≡ tally q h + passes q x

pub heap_push_lem : (x : EventItem) (h : List EventItem) → IsQueue h → Pushed x h (heap_push x h)
unfolding heap_push
heap_push_lem x h v =
    let y = record x { index = length h } in
    let size = length-append h (y ∷ []) in
    let s =
      up_restores (length h + 1) (length h + 1) (h ++ y ∷ []) (length h) (omega (arith, size))
        (omega arith) (omega arith)
        (record {
          edges = λ c p m r. ground (arith, v c, sends-append h y c, sends-append h y (parent c));
          bridged = λ c p m r t. omega arith;
        }) in
    let full : length (up (length h + 1) (h ++ y ∷ []) (length h)) ≡ length h + 1 =
      omega (arith, s.size, size) in
    record {
      queue = λ c p m. s.heap c p (omega (arith, full));
      size = full;
      same = λ q.
          s.same q
          ∙ count-append (λ (z : EventItem). q z.event z.send_count) h (y ∷ [])
          ∙ omega arith;
    }

-- Push keeps the queue in order and adds exactly its items.
pub push_lem :
    (items h : List EventItem)
    → IsQueue h
    → IsQueue (push items h)
      × (length (push items h) ≡ length items + length h)
      × ((q : Event → ℕ → Bool) → tally q (push items h) ≡ tally q items + tally q h)
unfolding push
push_lem [] h v = (v, omega arith, λ q. omega arith)
push_lem (x ∷ items) h v =
    let p = heap_push_lem x h v in
    let (w, size, same) = push_lem items (heap_push x h) p.queue in
    (w, omega (arith, size, p.size), λ q. omega (arith, same q, p.same q))

-- No item was sent less often than `b` times.
abbrev pub AtLeast : ℕ → List EventItem → Type 0
AtLeast b h = tally (λ _ n. ltb n b) h ≡ 0

AtLeast-of_sends :
    (b : ℕ) (h : List EventItem) → ((i : ℕ) → i < length h → b ≤ sends h i) → AtLeast b h
AtLeast-of_sends b [] v = refl
AtLeast-of_sends b (x ∷ h) v =
    ground (arith, v 0 (omega arith), AtLeast-of_sends b h (λ i l. v (suc i) (omega arith)))

sends-take : (n : ℕ) (h : List EventItem) (c : ℕ) → c < n → sends (take n h) c ≡ sends h c
sends-take zero h c l = absurd (omega arith)
sends-take (suc n) [] c l = refl
sends-take (suc n) (x ∷ h) zero l = refl
sends-take (suc n) (x ∷ h) (suc c) l = sends-take n h c (omega arith)

tally-take :
    (q : Event → ℕ → Bool) (n : ℕ) (h : List EventItem) (x : EventItem)
    → length h ≡ n + 1
    → get_elem? h n ≡ some x
    → tally q (take n h) + passes q x ≡ tally q h
tally-take q n [] x l e = absurd (omega arith)
tally-take q zero (y ∷ []) x l e = ground arith
tally-take q zero (y ∷ (z ∷ h)) x l e = absurd (omega arith)
tally-take q (suc n) (y ∷ h) x l e = omega (arith, tally-take q n h x (omega arith) e)

pub record Popped (h : List EventItem) : Type 0 where
  pub item : EventItem
  pub rest : List EventItem
  pub succeeds : heap_pop h ≡ some (item, rest)
  pub queue : IsQueue rest
  pub size : length h ≡ length rest + 1
  pub same : (q : Event → ℕ → Bool) → tally q rest + passes q item ≡ tally q h
  pub least : AtLeast item.send_count h

-- The heap after `down`, with the least item at the end.
cut : List EventItem → ℕ → List EventItem
cut h n = down (length h) (swap_items h 0 n) 0 n

module _ (h : List EventItem) (n : ℕ) (size : length h ≡ n + 1) (v : IsQueue h) where
  swapped-sends :
      (c : ℕ)
      → sends (swap_items h 0 n) c
        ≡ (if nat_beq n c then sends h 0 else if nat_beq 0 c then sends h n else sends h c)
  swapped-sends c = sends-swap_items h 0 n c (omega arith) (omega arith)

  cut-Sifted : Sifted n h (cut h n)
  unfolding cut
  cut-Sifted = Sifted-swap 0 n (
      down_restores (length h) n (swap_items h 0 n) 0 (omega (arith, length-swap_items h 0 n))
        (omega arith)
        (record {
          edges = λ c p m r. ground (arith, v c, swapped-sends c, swapped-sends (parent c));
          bridged = λ c p m r t. omega arith;
        }))

  cut_last : sends (cut h n) n ≡ sends h 0
  unfolding cut
  cut_last =
      sends-down (length h) n (swap_items h 0 n) 0 n (omega (arith, length-swap_items h 0 n))
        (omega arith)
      ∙ swapped-sends n
      ∙ ground arith

  cut-Popped :
      (x : EventItem)
      → heap_pop h ≡ some (x, take n (cut h n))
      → get_elem? (cut h n) n ≡ some x
      → Popped h
  cut-Popped x succeeds e =
      let s = cut-Sifted in
      let taken : length (take n (cut h n)) ≡ n = omega (arith, length-take n (cut h n), s.size) in
      let root : x.send_count ≡ sends h 0 = ap sends_in (sym e) ∙ cut_last in
      record {
        item = x;
        rest = take n (cut h n);
        succeeds = succeeds;
        queue = λ c p m. omega (
          arith,
          s.heap c p (omega (arith, taken)),
          sends-take n (cut h n) c (omega (arith, taken)),
          sends-take n (cut h n) (parent c) (omega (arith, taken)),
        );
        size = omega (arith, taken);
        same = λ q. tally-take q n (cut h n) x (omega (arith, s.size)) e ∙ s.same q;
        least =
            AtLeast-of_sends x.send_count h
              (λ i m. omega (arith, root, root_least (length h) h i v m));
      }

last_item-some :
    (d : List EventItem) (n : ℕ) (o : Option EventItem) (x : EventItem)
    → length d ≡ n + 1
    → o ≡ some x
    → last_item d o ≡ some (x, take n d)
unfolding last_item
last_item-some d n o x l e = let m : length d - 1 ≡ n = omega arith in rw (e, last_item, m)

pub heap_pop_lem : (h : List EventItem) → IsQueue h → 0 < length h → Popped h
heap_pop_lem h v l =
    let n : ℕ = length h - 1 in
    let size : length h ≡ n + 1 = omega arith in
    let s = cut-Sifted h n size v in
    let (x, e) = item_at (cut h n) n (omega (arith, s.size)) in
    let last = last_item-some (cut h n) n (get_elem? (cut h n) n) x (omega (arith, s.size)) e in
    cut-Popped h n size v x (unfold heap_pop cut in last) e

-- Each item was sent no more often than any that comes after it, or that stays in the queue.
abbrev pub LeastFirst : List EventItem → List EventItem → Type 0
LeastFirst [] rest = Unit
LeastFirst (x ∷ items) rest = AtLeast x.send_count (items ++ rest) × LeastFirst items rest

pub record Taken (n : ℕ) (h : List EventItem) (popped : Option (List EventItem × List EventItem))
    : Type 0 where
  pub items : List EventItem
  pub rest : List EventItem
  pub succeeds : popped ≡ some (items, rest)
  pub queue : IsQueue rest
  pub size_items : length items ≡ n
  pub size : length h ≡ length items + length rest
  pub same : (q : Event → ℕ → Bool) → tally q items + tally q rest ≡ tally q h
  pub order : LeastFirst items rest

pop_loop-Taken : (n : ℕ) (h : List EventItem) → IsQueue h → n ≤ length h → Taken n h (pop_loop n h)
unfolding pop_loop
pop_loop-Taken zero h v l = record {
  items = [];
  rest = h;
  succeeds = refl;
  queue = v;
  size_items = refl;
  size = omega arith;
  same = λ q. omega arith;
  order = tt;
}
pop_loop-Taken (suc n) h v l =
    let p = heap_pop_lem h v (omega arith) in
    let t = pop_loop-Taken n p.rest p.queue (omega (arith, p.size)) in
    record {
      items = p.item ∷ t.items;
      rest = t.rest;
      succeeds = rw (p.succeeds, pop_loop, t.succeeds);
      queue = t.queue;
      size_items = omega (arith, t.size_items);
      size = omega (arith, p.size, t.size);
      same = λ q. omega (arith, p.same q, t.same q);
      order = (
        omega (
          arith,
          p.least,
          p.same (λ _ k. ltb k p.item.send_count),
          t.same (λ _ k. ltb k p.item.send_count),
          count-append (λ (y : EventItem). ltb y.send_count p.item.send_count) t.items t.rest,
        ),
        t.order,
      );
    }

-- Pop of `n` succeeds on a queue in order and takes out `n` items, or all if there are fewer: each
-- was sent no more often than those behind it and those that stay, which are in order again, and no
-- item is lost or added.
pub pop_lem : (n : ℕ) (h : List EventItem) → IsQueue h → Taken (min n (length h)) h (pop n h)
unfolding pop
pop_lem n h v = pop_loop-Taken (min n (length h)) h v (omega arith)
