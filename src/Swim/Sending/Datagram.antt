-- ===== src/Swim/Sending/Datagram.antt =====
-- What sendToAddr takes out of the queue, the datagram that it writes, and what a failure leaves.
use commute.Prelude.{
  ℕ, ◌+◌, ◌≤◌, min, some, List, [], ◌∷◌, ◌++◌, Bool, true, false, ◌≡◌, refl, sym, subst, ◌∙◌, ap,
  arith, ltb, length, length-append,
}
use commute.Swim.Types.{Event}
use commute.Swim.EventQueue.{EventItem}
use commute.Swim.EventQueue.Array.{tally}
use commute.Swim.EventQueue.Pop.{IsQueue, LeastFirst, pop_lem, push_lem}
use commute.Swim.Message.{Message, marshal, max_piggyback_events, max_message_size}
use commute.Swim.Message.RoundTrip.{AllFit}
use commute.Swim.Message.Bounds.{marshal_fits}
use commute.Swim.Sending.{Sent, append_events, with_events, after_write, send_to_addr}

length-append_events :
    (events : List Event) (items : List EventItem)
    → length (append_events events items) ≡ length events + length items
unfolding append_events
length-append_events events [] = omega arith
length-append_events events (x ∷ items) = omega (
  arith,
  length-append_events (events ++ x.event ∷ []) items,
  length-append events (x.event ∷ []),
)

module _ (crc : List ℕ → ℕ) (max_disseminations : ℕ → ℕ → ℕ) where
  -- What sendToAddr does with the queue `h`: the items that the message takes along, least sent
  -- first, and those that stay.
  pub record Sending (written : Bool) (factor peers : ℕ) (msg : Message) (h : List EventItem)
      : Type 0 where
    pub items : List EventItem
    pub rest : List EventItem
    pub succeeds :
        send_to_addr crc max_disseminations written factor peers msg h
        ≡ some (after_write crc max_disseminations written factor peers msg items rest)
    pub size_items : length items ≡ min max_piggyback_events (length h)
    pub size : length h ≡ length items + length rest
    pub queue : IsQueue rest
    pub order : LeastFirst items rest
    pub same : (q : Event → ℕ → Bool) → tally q items + tally q rest ≡ tally q h

  pub send_to_addr-Sending :
      (written : Bool) (factor peers : ℕ) (msg : Message) (h : List EventItem)
      → IsQueue h
      → Sending written factor peers msg h
  unfolding send_to_addr
  send_to_addr-Sending written factor peers msg h v =
      let t = pop_lem max_piggyback_events h v in
      record {
        items = t.items;
        rest = t.rest;
        succeeds = rw (t.succeeds, send_to_addr);
        size_items = t.size_items;
        size = t.size;
        queue = t.queue;
        order = t.order;
        same = t.same;
      }

  -- A send that fails leaves the queue in order, with the same events, sent as often as before.
  pub send_to_addr_failed :
      (factor peers : ℕ) (msg : Message) (h : List EventItem)
      → IsQueue h
      → (s : Sent) × (send_to_addr crc max_disseminations false factor peers msg h ≡ some s)
        × (s.succeeded ≡ false)
        × IsQueue s.queue
        × ((q : Event → ℕ → Bool) → tally q s.queue ≡ tally q h)
  unfolding after_write
  send_to_addr_failed factor peers msg h v =
      let t = send_to_addr-Sending false factor peers msg h v in
      let (w, size, same) = push_lem t.items t.rest t.queue in
      (
        after_write crc max_disseminations false factor peers msg t.items t.rest,
        t.succeeds,
        refl,
        w,
        λ q. same q ∙ t.same q,
      )

  AllFit-append :
      (es : List Event) (e : Event) → AllFit es → length e.node ≤ 47 → AllFit (es ++ e ∷ [])
  AllFit-append [] e f h = (h, tt)
  AllFit-append (x ∷ es) e (k, f) h = (k, AllFit-append es e f h)

  sent_flag :
      (written : Bool) (factor peers : ℕ) (msg : Message) (items rest : List EventItem)
      → (after_write crc max_disseminations written factor peers msg items rest).succeeded ≡ written
  unfolding after_write
  sent_flag true factor peers msg items rest = refl
  sent_flag false factor peers msg items rest = refl

  datagram_size :
      (written : Bool) (factor peers : ℕ) (msg : Message) (items rest : List EventItem)
      → length (marshal crc (with_events crc max_disseminations msg items)) ≤ max_message_size
      → length (after_write crc max_disseminations written factor peers msg items rest).datagram
        ≤ max_message_size
  unfolding after_write
  datagram_size true factor peers msg items rest h = h
  datagram_size false factor peers msg items rest h = h

  append_events-AllFit :
      (events : List Event) (items : List EventItem)
      → AllFit events
      → tally (λ e _. ltb 47 (length e.node)) items ≡ 0
      → AllFit (append_events events items)
  unfolding append_events
  append_events-AllFit events [] f h = f
  append_events-AllFit events (x ∷ items) f h =
      append_events-AllFit (events ++ x.event ∷ []) items
        (AllFit-append events x.event f (ground arith)) (omega arith)

  -- The datagram of a message without events of its own has at most `maxMessageSize` bytes, which fit
  -- the receiver's buffer, if the addresses in the message and in the queue have at most 47 bytes.
  pub datagram_fits :
      (written : Bool) (factor peers : ℕ) (msg : Message) (h : List EventItem)
      → IsQueue h
      → msg.events ≡ []
      → length msg.src ≤ 47
      → length msg.target ≤ 47
      → tally (λ e _. ltb 47 (length e.node)) h ≡ 0
      → (s : Sent) × (send_to_addr crc max_disseminations written factor peers msg h ≡ some s)
        × (s.succeeded ≡ written)
        × (length s.datagram ≤ max_message_size)
  unfolding after_write
  datagram_fits written factor peers msg h v none_yet hs ht hn =
      let t = send_to_addr-Sending written factor peers msg h v in
      let m : Message = with_events crc max_disseminations msg t.items in
      let few : length m.events ≤ max_piggyback_events =
        omega (arith, length-append_events msg.events t.items, ap length none_yet, t.size_items) in
      let fit : AllFit m.events =
        append_events-AllFit msg.events t.items (subst AllFit (sym none_yet) tt)
          (omega (arith, hn, t.same (λ e _. ltb 47 (length e.node)))) in
      let size = (marshal_fits crc m hs ht fit few).0 in
      (
        after_write crc max_disseminations written factor peers msg t.items t.rest,
        t.succeeds,
        sent_flag written factor peers msg t.items t.rest,
        datagram_size written factor peers msg t.items t.rest size,
      )
