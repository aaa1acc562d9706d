-- ===== src/Swim/Listen/Relays.antt =====
-- What the steps of a relay, and the select that sends an ack, leave honest.
use commute.Prelude.{
  str_eq, ℕ, Str, Option, none, some, [], ◌∷◌, ◌++◌, Bool, true, false, ◌&&◌, ◌≡◌, inl, inr, refl,
  sym, subst, arith, if◌then◌else◌, nat_beq, nat_beq_iff, str_beq, str_beq_iff, ltb, length,
  get_elem?, set, all, all_of, all-append, all_mono, all_of_mono, all-set, all-get_elem?,
  contains_func, contains_func-append, contains_func_mono, Bool-cases,
}
use commute.Swim.Types.{Rng}
use commute.Swim.Message.{MessageKind, ping, ack, Message, new_message}
use commute.Swim.Probe.{Ack}
use commute.Swim.Listen.{
  RelayPhase, pinging, waiting, leaving, over, Relay, Result, next, blocked, panicked, RelayAction,
  start, take_ack, time_out, finish, offer, is_over, Listen, post, lose, send_to_relay, send_ack,
  on_start, on_take, on_buffer, on_finish, on_phase, at_relay,
}
use commute.Swim.Listen.Answers.{
  Log, acknowledged, asked_for, asked_by, answers_log, is_honest, was_received, was_asked,
  pc_received, answers_log-append, was_asked-append, pc_received-append, received-offer,
}

module _ (R : Rng) (self : Str) where
  pub record IsHonest (log : Log) (s : Listen R self) : Type 0 where
    pub sent : all (is_honest log) s.sent ≡ true
    pub acks : all_of (was_received log) s.acks ≡ true
    pub relays : all (was_asked log) s.relays ≡ true
    pub pc : pc_received log s.pc ≡ true

  pub IsHonest-append : (xs log : Log) (s : Listen R self) → IsHonest log s → IsHonest (xs ++ log) s
  IsHonest-append xs log s h = record {
    sent =
        all_mono (is_honest log) (is_honest (xs ++ log)) s.sent
          (λ e. answers_log-append xs log e.1.kind e.0 e.1.period e.1.target) h.sent;
    acks =
        all_of_mono (was_received log) (was_received (xs ++ log)) s.acks
          (λ a. contains_func-append (acknowledged a.addr a.period) xs log) h.acks;
    relays =
        all_mono (was_asked log) (was_asked (xs ++ log)) s.relays (was_asked-append xs log)
          h.relays;
    pc = pc_received-append xs log s.pc h.pc;
  }

  abbrev pub Stays : Log → Result (Listen R self) → Type 0
  Stays log (next t) = IsHonest log t
  Stays log blocked = Unit
  Stays log panicked = Unit

  pub post-Stays :
      (log : Log) (k : MessageKind) (to : Str) (period : ℕ) (target : Str) (s : Listen R self)
      → IsHonest log s
      → answers_log log k to period target ≡ true
      → Stays log (post R self to (new_message k self period target) s)
  unfolding new_message
  post-Stays log k to period target s h a = elim (Bool-cases (nat_beq (length self) 0)) [
    | inl n ↦ rw n tt
    | inr n ↦ elim (Bool-cases (ltb 47 (length target))) [
      | inl l ↦ rw (n, l) tt
      | inr l ↦
          rw (n, l)
            (record {
              sent =
                  all-append (is_honest log) s.sent
                    ((
                      to,
                      record {
                        version = 1;
                        kind = k;
                        src = self;
                        period = period;
                        target = target;
                        events = [];
                      },
                    )
                      ∷ [])
                    h.sent (ground arith);
              acks = h.acks;
              relays = h.relays;
              pc = h.pc;
            })
    ]
  ]

  -- A relay in another state, and maybe another message to send.
  change-IsHonest :
      (log : Log) (i : ℕ) (r : Relay) (s : Listen R self)
      → IsHonest log s
      → was_asked log r ≡ true
      → IsHonest log (record s { relays = set s.relays i r })
  change-IsHonest log i r s h a = record {
    sent = h.sent;
    acks = h.acks;
    relays = all-set (was_asked log) s.relays i r h.relays a;
    pc = h.pc;
  }

  send_to_relay-Stays :
      (log : Log) (i : ℕ) (a : Ack) (o : Option Relay) (s : Listen R self)
      → get_elem? s.relays i ≡ o
      → IsHonest log s
      → was_received log a ≡ true
      → Stays log (send_to_relay R self i a o s)
  unfolding send_to_relay
  send_to_relay-Stays log i a none s e h k = tt
  send_to_relay-Stays log i a (some r) s e h k =
      let asked = all-get_elem? (was_asked log) s.relays i r h.relays e in
      elim (Bool-cases (is_over r.phase)) [
        | inl o ↦ rw o tt
        | inr o ↦ rw o (record {
          sent = h.sent;
          acks = h.acks;
          relays =
              all-set (was_asked log) s.relays i (record r { buffer = offer r.buffer a }) h.relays
                (ground (arith, received-offer log r.buffer a));
          pc = refl;
        })
      ]

  pub send_ack-Stays :
      (log : Log) (to : Option ℕ) (a : Ack) (s : Listen R self)
      → IsHonest log s
      → was_received log a ≡ true
      → Stays log (send_ack R self to a s)
  unfolding send_ack
  send_ack-Stays log none a s h k = record {
    sent = h.sent;
    acks = received-offer log s.acks a h.acks k;
    relays = h.relays;
    pc = refl;
  }
  send_ack-Stays log (some i) a s h k =
      send_to_relay-Stays log i a (get_elem? s.relays i) s refl h k

  lose-Stays :
      (log : Log) (o : Option Message) (s : Listen R self)
      → IsHonest log s
      → Stays log (lose R self o s)
  lose-Stays log none s h = tt
  lose-Stays log (some msg) s h = h

  on_start-Stays :
      (log : Log) (resolved written : Bool) (i : ℕ) (r : Relay) (s : Listen R self)
      → IsHonest log s
      → was_asked log r ≡ true
      → Stays log (on_start R self resolved written i r s)
  unfolding on_start
  on_start-Stays log true written i r s h a =
      let pinged_for : contains_func (asked_for r.key.target r.key.period) log ≡ true =
        contains_func_mono (asked_by r.requester r.key.target r.key.period)
          (asked_for r.key.target r.key.period) log (λ e. ground arith) (ground arith) in
      post-Stays log ping r.key.target r.key.period []
        (record s {
          relays = set s.relays i (record r { phase = if written then waiting else leaving });
        })
        (change-IsHonest log i (record r { phase = if written then waiting else leaving }) s h a)
        pinged_for
  on_start-Stays log false written i r s h a =
      lose-Stays log (new_message ping self r.key.period [])
        (record s { relays = set s.relays i (record r { phase = leaving }) })
        (change-IsHonest log i (record r { phase = leaving }) s h a)

  on_buffer-Stays :
      (log : Log) (i : ℕ) (o : Option Ack) (r : Relay) (s : Listen R self)
      → IsHonest log s
      → o ≡ r.buffer
      → was_asked log r ≡ true
      → Stays log (on_buffer R self i o r s)
  unfolding on_buffer on_take
  on_buffer-Stays log i none r s h e a = tt
  on_buffer-Stays log i (some b) r s h e a =
      let got : was_received log b ≡ true =
        let f : all_of (was_received log) r.buffer ≡ true = ground arith in
        subst (λ o. all_of (was_received log) o ≡ true) (sym e) f in
      elim (Bool-cases (nat_beq b.period r.key.period && str_beq b.addr r.key.target)) [
        | inl m ↦
            let n : b.period ≡ r.key.period =
              (nat_beq_iff b.period r.key.period).0 (ground arith) in
            let t : b.addr ≡ r.key.target = (str_beq_iff b.addr r.key.target).0 (ground arith) in
            let got' : contains_func (acknowledged r.key.target r.key.period) log ≡ true =
              rw⁻¹ (n, t) got in
            rw m (
              post-Stays log ack r.requester r.key.period r.key.target
                (record s { relays = set s.relays i (record r { phase = leaving; buffer = none }) })
                (change-IsHonest log i (record r { phase = leaving; buffer = none }) s h
                  (ground arith))
                (ground arith))
        | inr m ↦ rw m (change-IsHonest log i (record r { buffer = none }) s h (ground arith))
      ]

  on_phase-Stays :
      (log : Log) (phase : RelayPhase) (act : RelayAction) (i : ℕ) (r : Relay) (s : Listen R self)
      → IsHonest log s
      → was_asked log r ≡ true
      → Stays log (on_phase R self phase act i r s)
  unfolding on_phase on_finish
  on_phase-Stays log pinging (start resolved written) i r s h k =
      on_start-Stays log resolved written i r s h k
  on_phase-Stays log pinging take_ack i r s h k = tt
  on_phase-Stays log pinging time_out i r s h k = tt
  on_phase-Stays log pinging finish i r s h k = tt
  on_phase-Stays log waiting (start resolved written) i r s h k = tt
  on_phase-Stays log waiting take_ack i r s h k = on_buffer-Stays log i r.buffer r s h refl k
  on_phase-Stays log waiting time_out i r s h k =
      change-IsHonest log i (record r { phase = leaving }) s h k
  on_phase-Stays log waiting finish i r s h k = tt
  on_phase-Stays log leaving (start resolved written) i r s h k = tt
  on_phase-Stays log leaving take_ack i r s h k = tt
  on_phase-Stays log leaving time_out i r s h k = tt
  on_phase-Stays log leaving finish i r s h k =
      let t = change-IsHonest log i (record r { phase = over }) s h k in
      record { sent = t.sent; acks = t.acks; relays = t.relays; pc = t.pc }
  on_phase-Stays log over (start resolved written) i r s h k = tt
  on_phase-Stays log over take_ack i r s h k = tt
  on_phase-Stays log over time_out i r s h k = tt
  on_phase-Stays log over finish i r s h k = tt

  pub at_relay-Stays :
      (log : Log) (o : Option Relay) (act : RelayAction) (i : ℕ) (s : Listen R self)
      → IsHonest log s
      → get_elem? s.relays i ≡ o
      → Stays log (at_relay R self o act i s)
  unfolding at_relay
  at_relay-Stays log none act i s h e = tt
  at_relay-Stays log (some r) act i s h e =
      on_phase-Stays log r.phase act i r s h (all-get_elem? (was_asked log) s.relays i r h.relays e)
