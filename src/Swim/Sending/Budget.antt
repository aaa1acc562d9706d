-- ===== src/Swim/Sending/Budget.antt =====
-- How long an event stays in the queue: the queue runs empty.
use commute.Prelude.{
  ℕ, zero, suc, ◌+◌, ◌-◌, ◌≤◌, min, max, Option, none, some, List, [], ◌∷◌, Bool, true, ◌&&◌, ◌≡◌,
  refl, sym, ap, arith, ltb, leb, length,
}
use commute.Swim.Types.{Event}
use commute.Swim.EventQueue.{EventItem, push}
use commute.Swim.EventQueue.Array.{tally}
use commute.Swim.EventQueue.Pop.{IsQueue, push_lem}
use commute.Swim.Message.{Message, max_piggyback_events}
use commute.Swim.Sending.Datagram.{send_to_addr-Sending}
use commute.Swim.Sending.{Sent, count_sending, after_write, send_to_addr}

-- The sends that the items may still have, one at least for each.
abbrev pub budget : ℕ → List EventItem → ℕ
budget most [] = 0
budget most (x ∷ h) = max 1 (most - x.send_count) + budget most h

-- The items that were sent at most 0, at most 1, … and less than `most` times, added up.
abbrev below : ℕ → List EventItem → ℕ
below zero h = 0
below (suc c) h = tally (λ _ n. leb n c) h + below c h

below_nil : (c : ℕ) → below c [] ≡ 0
below_nil zero = refl
below_nil (suc c) = omega (arith, below_nil c)

below_cons :
    (c : ℕ) (x : EventItem) (h : List EventItem) → below c (x ∷ h) ≡ c - x.send_count + below c h
below_cons zero x h = omega arith
below_cons (suc c) x h = ground (arith, below_cons c x h)

budget-tally :
    (most : ℕ) (h : List EventItem) → budget most h ≡ tally (λ _ n. leb most n) h + below most h
budget-tally most [] = omega (arith, below_nil most)
budget-tally most (x ∷ h) = ground (arith, budget-tally most h, below_cons most x h)

below_sum :
    (c : ℕ) (a b h : List EventItem)
    → ((q : Event → ℕ → Bool) → tally q a + tally q b ≡ tally q h)
    → below c a + below c b ≡ below c h
below_sum zero a b h same = omega arith
below_sum (suc c) a b h same = omega (arith, same (λ _ n. leb n c), below_sum c a b h same)

-- The budget of a queue is that of its items in whatever order.
budget_sum :
    (most : ℕ) (a b h : List EventItem)
    → ((q : Event → ℕ → Bool) → tally q a + tally q b ≡ tally q h)
    → budget most a + budget most b ≡ budget most h
budget_sum most a b h same = omega (
  arith,
  budget-tally most a,
  budget-tally most b,
  budget-tally most h,
  same (λ _ n. leb most n),
  below_sum most a b h same,
)

budget-count_sending :
    (most : ℕ) (items : List EventItem)
    → budget most (count_sending most items) + length items ≤ budget most items
unfolding count_sending
budget-count_sending most [] = omega arith
budget-count_sending most (x ∷ items) = ground (arith, budget-count_sending most items)

-- A counted item passes a test if it does so with its new count, which is below the maximum.
tally-count_sending :
    (q : Event → ℕ → Bool) (most : ℕ) (items : List EventItem)
    → tally q (count_sending most items) ≡ tally (λ e n. ltb (n + 1) most && q e (n + 1)) items
unfolding count_sending
tally-count_sending q most [] = refl
tally-count_sending q most (x ∷ items) = ground (arith, tally-count_sending q most items)

module _ (crc : List ℕ → ℕ) (max_disseminations : ℕ → ℕ → ℕ) where
  -- What a send that succeeds leaves.
  record Succeeded (factor peers : ℕ) (msg : Message) (h : List EventItem) : Type 0 where
    sent : Sent
    succeeds : send_to_addr crc max_disseminations true factor peers msg h ≡ some sent
    queue : IsQueue sent.queue
    cheaper :
        budget (max_disseminations factor (peers + 1)) sent.queue
          + min max_piggyback_events (length h)
        ≤ budget (max_disseminations factor (peers + 1)) h

  send_to_addr-Succeeded :
      (factor peers : ℕ) (msg : Message) (h : List EventItem)
      → IsQueue h
      → Succeeded factor peers msg h
  unfolding after_write
  send_to_addr-Succeeded factor peers msg h v =
      let most : ℕ = max_disseminations factor (peers + 1) in
      let t = send_to_addr-Sending crc max_disseminations true factor peers msg h v in
      let (w, size, same) = push_lem (count_sending most t.items) t.rest t.queue in
      record {
        sent = after_write crc max_disseminations true factor peers msg t.items t.rest;
        succeeds = t.succeeds;
        queue = w;
        cheaper = omega (
          arith,
          budget_sum most t.items t.rest h t.same,
          budget_sum most (count_sending most t.items) t.rest
              (push (count_sending most t.items) t.rest) (λ q. sym (same q)),
          budget-count_sending most t.items,
          t.size_items,
        );
      }

  -- The queue after one send that succeeds for each of the messages.
  unfoldable pub send_all : ℕ → ℕ → List Message → List EventItem → Option (List EventItem)
  unfolding send_to_addr
  send_all factor peers [] h = some h
  send_all factor peers (msg ∷ msgs) h =
      elim (send_to_addr crc max_disseminations true factor peers msg h) [
        | none ↦ none
        | some s ↦ send_all factor peers msgs s.queue
      ]

  budget_some : (most : ℕ) (h : List EventItem) → length h ≤ budget most h
  budget_some most [] = omega arith
  budget_some most (x ∷ h) = omega (arith, budget_some most h)

  spent :
      (most : ℕ) (h : List EventItem) (left n : ℕ)
      → left + min max_piggyback_events (length h) ≤ budget most h
      → budget most h ≤ suc n
      → left ≤ n
  spent most [] left n c b = omega arith
  spent most (x ∷ h) left n c b = omega arith

  nil_of_length : (h : List EventItem) → length h ≡ 0 → h ≡ []
  nil_of_length [] e = refl
  nil_of_length (x ∷ h) e = absurd (omega arith)

  -- Dissemination ends: as many sends that succeed as the events in the queue may still have, while no
  -- event is added and the number of peers stays, leave the queue empty.
  pub send_all_drains :
      (factor peers : ℕ) (msgs : List Message) (h : List EventItem)
      → IsQueue h
      → budget (max_disseminations factor (peers + 1)) h ≤ length msgs
      → send_all factor peers msgs h ≡ some []
  unfolding send_all
  send_all_drains factor peers [] h v b =
      ap some
        (nil_of_length h (omega (arith, budget_some (max_disseminations factor (peers + 1)) h)))
  send_all_drains factor peers (msg ∷ msgs) h v b =
      let t = send_to_addr-Succeeded factor peers msg h v in
      rw (t.succeeds, send_all)
        (send_all_drains factor peers msgs t.sent.queue t.queue
          (spent _ h _ (length msgs) t.cheaper b))
