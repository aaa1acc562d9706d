-- ===== src/Swim/Listen/Race.antt =====
-- A relay that ends while Listen is about to send it an ack: Listen takes the channel out of the map
-- under the lock, and sends without it.
use commute.Prelude.{
  str_eq, ℕ, ◌≤◌, Str, none, some, List, [], ◌∷◌, ◌++◌, Bool, true, false, ◌≡◌, refl, ◌∙◌, ap,
  arith, if◌then◌else◌, nat_beq, nat_beq_iff, lookup, lookup-insert, insert, erase, length,
  get_elem?, get_elem?-set, set,
}
use commute.Swim.Types.{Rng}
use commute.Swim.Message.{ping, ack, ping_req, Message, ok, new_message, unmarshal}
use commute.Swim.Probe.{Ack}
use commute.Swim.Listen.{
  RelayKey, key_beq_iff, key_eq, pinging, waiting, leaving, over, Relay, reading, sending, Result,
  next, blocked, panicked, RelayAction, start, time_out, finish, Action, receive, deliver,
  relay_does, ack_addr, is_over, offer, Listen, process_dead, post, on_kind, on_message,
  send_to_relay, send_ack, on_start, on_finish, on_phase, at_relay, on_pc, step,
}

get_elem?-last : {A : Type 0} (xs : List A) (x : A) → get_elem? (xs ++ x ∷ []) (length xs) ≡ some x
get_elem?-last [] x = refl
get_elem?-last (y ∷ xs) x = get_elem?-last xs x

get_elem?-set_self :
    {A : Type 0} (xs : List A) (i : ℕ) (v y : A)
    → get_elem? xs i ≡ some y
    → get_elem? (set xs i v) i ≡ some v
get_elem?-set_self xs i v y e = get_elem?-set xs i i v y e ∙ rw ((nat_beq_iff i i).1 refl) refl

abbrev key_at : Str → ℕ → RelayKey
key_at target period = record { target = target; period = period }

key_of :
    (a q : Message)
    → ack_addr a ≡ q.target
    → a.period ≡ q.period
    → key_at (ack_addr a) a.period ≡ key_at q.target q.period
key_of a q e f = ap (λ t. key_at t a.period) e ∙ ap (key_at q.target) f

module _ (R : Rng) (self : Str) (crc : List ℕ → ℕ) where
  abbrev then_do :
      Result (Listen R self) → (Listen R self → Result (Listen R self)) → Result (Listen R self)
  then_do (next t) f = f t
  then_do blocked f = blocked
  then_do panicked f = panicked

  -- The actions one after the other.
  unfoldable pub run : List Action → Listen R self → Result (Listen R self)
  unfolding step
  run [] s = next s
  run (act ∷ rest) s = then_do (step R self crc act s) (run rest)

  run-next :
      (act : Action) (rest : List Action) (s t : Listen R self)
      → step R self crc act s ≡ next t
      → run (act ∷ rest) s ≡ run rest t
  unfolding run
  run-next act rest s t e = rw e refl

  run-panicked :
      (act : Action) (s : Listen R self)
      → step R self crc act s ≡ panicked
      → run (act ∷ []) s ≡ panicked
  unfolding run
  run-panicked act s e = rw e refl

  -- One lemma for each action of the race.
  pub step-receive :
      (done : Bool) (addr : Str) (input : List ℕ) (msg : Message) (s : Listen R self)
      → s.pc ≡ reading
      → unmarshal crc input ≡ ok msg
      → step R self crc (receive done addr input) s
        ≡ on_kind R self msg.kind addr msg
            (record s { peers = process_dead R self done msg.events s.peers })
  unfolding step on_pc on_message
  step-receive done addr input msg s e u =
      ap (λ pc. on_pc R self crc pc (receive done addr input) s) e
      ∙ ap (λ o. on_message R self done addr o s) u

  on_kind-ping_req :
      (addr : Str) (msg : Message) (s : Listen R self)
      → msg.kind ≡ ping_req
      → 1 ≤ length msg.target
      → on_kind R self msg.kind addr msg s
        ≡ next (record s {
          relay_acks =
              insert
                (record { target = msg.target; period = msg.period })
                (length s.relays)
                s.relay_acks;
          relays =
              s.relays
              ++ (record {
                requester = addr;
                key = record { target = msg.target; period = msg.period };
                phase = pinging;
                buffer = none;
              })
                ∷ [];
        })
  unfolding on_kind
  on_kind-ping_req addr msg s e l =
      let n : nat_beq (length msg.target) 0 ≡ false = ground arith in
      ap (λ k. on_kind R self k addr msg s) e ∙ rw n refl

  on_kind-ack :
      (addr : Str) (msg : Message) (i : ℕ) (s : Listen R self)
      → msg.kind ≡ ack
      → lookup (record { target = ack_addr msg; period = msg.period }) s.relay_acks ≡ some i
      → on_kind R self msg.kind addr msg s
        ≡ next (record s {
          pc = sending (some i) (record { period = msg.period; addr = ack_addr msg });
        })
  unfolding on_kind
  on_kind-ack addr msg i s e f =
      ap (λ k. on_kind R self k addr msg s) e
      ∙ ap
          (λ o.
            next
              (record s { pc = sending o (record { period = msg.period; addr = ack_addr msg }) }))
          f

  step-relay_does :
      (i : ℕ) (act : RelayAction) (r : Relay) (s : Listen R self)
      → get_elem? s.relays i ≡ some r
      → step R self crc (relay_does i act) s ≡ on_phase R self r.phase act i r s
  unfolding step at_relay
  step-relay_does i act r s e = ap (λ o. at_relay R self o act i s) e

  step-deliver :
      (i : ℕ) (a : Ack) (r : Relay) (s : Listen R self)
      → s.pc ≡ sending (some i) a
      → get_elem? s.relays i ≡ some r
      → r.phase ≡ over
      → step R self crc deliver s ≡ panicked
  unfolding step on_pc send_ack send_to_relay
  step-deliver i a r s e g p =
      ap (λ pc. on_pc R self crc pc deliver s) e
      ∙ ap (λ o. send_to_relay R self i a o s) g
      ∙ ap
          (λ p.
            if is_over p
            then panicked
            else next (record s {
              relays = set s.relays i (record r { buffer = offer r.buffer a });
              pc = reading;
            }))
          p

  new_ping :
      (period : ℕ)
      → 1 ≤ length self
      → new_message ping self period []
        ≡ some (record {
          version = 1;
          kind = ping;
          src = self;
          period = period;
          target = [];
          events = [];
        })
  unfolding new_message
  new_ping period l = let n : nat_beq (length self) 0 ≡ false = ground arith in rw n refl

  -- Listen is about to read, and the node's own address is not empty. It reads a ping-req with a target,
  -- the new relay sends its ping, and Listen reads an ack that counts for this target in this period.
  -- If the relay's time for the ack is over, and the relay ends, before Listen sends the ack to the
  -- relay's channel, then the send panics.
  pub send_on_closed_channel :
      (d e : Bool) (from back : Str) (asks answer : List ℕ) (q a : Message) (s : Listen R self)
      → 1 ≤ length self
      → s.pc ≡ reading
      → unmarshal crc asks ≡ ok q
      → q.kind ≡ ping_req
      → 1 ≤ length q.target
      → unmarshal crc answer ≡ ok a
      → a.kind ≡ ack
      → ack_addr a ≡ q.target
      → a.period ≡ q.period
      → run
          (receive d from asks
            ∷ relay_does (length s.relays) (start true true)
            ∷ receive e back answer
            ∷ relay_does (length s.relays) time_out
            ∷ relay_does (length s.relays) finish
            ∷ deliver
            ∷ [])
          s
        ≡ panicked
  unfolding on_phase on_start on_finish
  send_on_closed_channel d e from back asks answer q a s self1 pc uq kq tq ua ka at_q period_q =
      let n = length s.relays in
      let key : RelayKey = record { target = q.target; period = q.period } in
      let r0 : Relay = record { requester = from; key = key; phase = pinging; buffer = none } in
      let r1 : Relay = record r0 { phase = waiting } in
      let r2 : Relay = record r0 { phase = leaving } in
      let r3 : Relay = record r0 { phase = over } in
      let pinged : Message = record {
        version = 1;
        kind = ping;
        src = self;
        period = q.period;
        target = [];
        events = [];
      } in
      let s1 : Listen R self = record s {
        peers = process_dead R self d q.events s.peers;
        relay_acks = insert key n s.relay_acks;
        relays = s.relays ++ r0 ∷ [];
      } in
      let g0 : get_elem? s1.relays n ≡ some r0 = get_elem?-last s.relays r0 in
      let s2 : Listen R self = record s1 {
        relays = set s1.relays n r1;
        sent = s.sent ++ (q.target, pinged) ∷ [];
      } in
      let g1 : get_elem? s2.relays n ≡ some r1 = get_elem?-set_self s1.relays n r1 r0 g0 in
      let b : Ack = record { period = a.period; addr = ack_addr a } in
      let s3 : Listen R self = record s2 {
        peers = process_dead R self e a.events s2.peers;
        pc = sending (some n) b;
      } in
      let s4 : Listen R self = record s3 { relays = set s2.relays n r2 } in
      let g2 : get_elem? s4.relays n ≡ some r2 = get_elem?-set_self s2.relays n r2 r1 g1 in
      let s5 : Listen R self = record s4 {
        relays = set s4.relays n r3;
        relay_acks = erase key s4.relay_acks;
      } in
      let g3 : get_elem? s5.relays n ≡ some r3 = get_elem?-set_self s4.relays n r3 r2 g2 in
      let found : lookup (record { target = ack_addr a; period = a.period }) s2.relay_acks
          ≡ some n =
        ap (λ k. lookup k s2.relay_acks) (key_of a q at_q period_q)
        ∙ lookup-insert key key n s.relay_acks
        ∙ rw ((key_beq_iff key key).1 refl) refl in
      run-next (receive d from asks) _ s s1 (
        step-receive d from asks q s pc uq
        ∙ on_kind-ping_req from q (record s { peers = s1.peers }) kq tq)
      ∙ run-next (relay_does n (start true true)) _ s1 s2 (
          step-relay_does n (start true true) r0 s1 g0
          ∙ ap (λ o. post R self q.target o (record s1 { relays = s2.relays }))
              (new_ping q.period self1))
      ∙ run-next (receive e back answer) _ s2 s3 (
          step-receive e back answer a s2 pc ua
          ∙ on_kind-ack back a n (record s2 { peers = s3.peers }) ka found)
      ∙ run-next (relay_does n time_out) _ s3 s4 (step-relay_does n time_out r1 s3 g1)
      ∙ run-next (relay_does n finish) _ s4 s5 (step-relay_does n finish r2 s4 g2)
      ∙ run-panicked deliver s5 (step-deliver n b r3 s5 refl g3 refl)
