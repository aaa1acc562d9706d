-- ===== src/Swim/Listen/Honesty.antt =====
-- What Listen and the relays send answers what was received.
use commute.Prelude.{
  str_eq, ℕ, Str, Option, none, some, List, [], ◌∷◌, ◌++◌, Bool, true, ◌≡◌, inl, inr, refl, subst,
  arith, nat_beq, length, get_elem?, all-append, contains_func, contains_func_head, Bool-cases,
}
use commute.Swim.Types.{Rng}
use commute.Swim.Message.{
  MessageKind, ping, ack, ping_req, Message, Outcome, ok, err, panic, unmarshal,
}
use commute.Swim.Probe.{Ack}
use commute.Swim.Listen.{
  pinging, Pc, reading, sending, Action, receive, deliver, relay_does, probe_takes, ack_addr,
  Listen, process_dead, on_kind, on_message, on_acks, on_pc, step, decoded, heard, Reach, begin, go,
  others,
}
use commute.Swim.Listen.Answers.{
  Log, pinged, acknowledged, asked_by, was_asked, pc_received, pinged_refl, acknowledged_refl,
  asked_by_refl,
}
use commute.Swim.Listen.Relays.{
  IsHonest, IsHonest-append, Stays, post-Stays, send_ack-Stays, at_relay-Stays,
}

module _ (R : Rng) (self : Str) where
  -- What a message leaves, once it is in the log.
  on_kind-Stays :
      (log : Log) (k : MessageKind) (addr : Str) (msg : Message) (s : Listen R self)
      → IsHonest R self log s
      → msg.kind ≡ k
      → Stays R self ((addr, msg) ∷ log) (on_kind R self k addr msg s)
  unfolding on_kind
  on_kind-Stays log ping addr msg s h e =
      let a : contains_func (pinged addr msg.period) ((addr, msg) ∷ log) ≡ true =
        contains_func_head (pinged addr msg.period) (addr, msg) log (pinged_refl addr msg e) in
      post-Stays R self ((addr, msg) ∷ log) ack addr msg.period [] s
        (IsHonest-append R self ((addr, msg) ∷ []) log s h) a
  on_kind-Stays log ack addr msg s h e =
      let t = IsHonest-append R self ((addr, msg) ∷ []) log s h in
      record {
        sent = t.sent;
        acks = t.acks;
        relays = t.relays;
        pc =
            contains_func_head (acknowledged (ack_addr msg) msg.period) (addr, msg) log
              (acknowledged_refl addr msg e);
      }
  on_kind-Stays log ping_req addr msg s h e =
      let t = IsHonest-append R self ((addr, msg) ∷ []) log s h in
      let asked : contains_func (asked_by addr msg.target msg.period) ((addr, msg) ∷ log) ≡ true =
        contains_func_head (asked_by addr msg.target msg.period) (addr, msg) log
          (asked_by_refl addr msg e) in
      elim (Bool-cases (nat_beq (length msg.target) 0)) [
        | inl n ↦ rw n t
        | inr n ↦ rw n (record {
          sent = t.sent;
          acks = t.acks;
          relays =
              all-append (was_asked ((addr, msg) ∷ log)) s.relays
                ((record {
                  requester = addr;
                  key = record { target = msg.target; period = msg.period };
                  phase = pinging;
                  buffer = none;
                })
                  ∷ [])
                t.relays (ground arith);
          pc = t.pc;
        })
      ]

  module _ (crc : List ℕ → ℕ) where
    on_message-Stays :
        (log : Log) (done : Bool) (addr : Str) (o : Outcome Message) (s : Listen R self)
        → IsHonest R self log s
        → Stays R self (decoded R self crc addr o ++ log) (on_message R self done addr o s)
    unfolding on_message
    on_message-Stays log done addr panic s h = tt
    on_message-Stays log done addr (err e) s h = h
    on_message-Stays log done addr (ok msg) s h =
        on_kind-Stays log msg.kind addr msg
          (record s { peers = process_dead R self done msg.events s.peers })
          (record { sent = h.sent; acks = h.acks; relays = h.relays; pc = h.pc }) refl

    on_pc-Stays :
        (log : Log) (pc : Pc) (act : Action) (s : Listen R self)
        → IsHonest R self log s
        → s.pc ≡ pc
        → Stays R self (heard R self crc act ++ log) (on_pc R self crc pc act s)
    unfolding on_pc
    on_pc-Stays log reading (receive done addr input) s h e =
        on_message-Stays log done addr (unmarshal crc input) s h
    on_pc-Stays log reading deliver s h e = tt
    on_pc-Stays log reading (relay_does i act) s h e = tt
    on_pc-Stays log reading probe_takes s h e = tt
    on_pc-Stays log (sending to a) (receive done addr input) s h e = tt
    on_pc-Stays log (sending to a) deliver s h e =
        send_ack-Stays R self log to a s h (subst (λ pc. pc_received log pc ≡ true) e h.pc)
    on_pc-Stays log (sending to a) (relay_does i act) s h e = tt
    on_pc-Stays log (sending to a) probe_takes s h e = tt

    on_acks-Stays :
        (log : Log) (o : Option Ack) (s : Listen R self)
        → IsHonest R self log s
        → Stays R self log (on_acks R self o s)
    on_acks-Stays log none s h = tt
    on_acks-Stays log (some a) s h = record {
      sent = h.sent;
      acks = refl;
      relays = h.relays;
      pc = h.pc;
    }

    step-Stays :
        (log : Log) (act : Action) (s : Listen R self)
        → IsHonest R self log s
        → Stays R self (heard R self crc act ++ log) (step R self crc act s)
    unfolding step
    step-Stays log (receive done addr input) s h =
        on_pc-Stays log s.pc (receive done addr input) s h refl
    step-Stays log deliver s h = on_pc-Stays log s.pc deliver s h refl
    step-Stays log (relay_does i act) s h =
        at_relay-Stays R self log (get_elem? s.relays i) act i s h refl
    step-Stays log probe_takes s h = on_acks-Stays log s.acks s h

    -- Listen, its relays, and Probe in as far as it takes acks from Listen, run in any interleaving, while
    -- the member list may change at any time. Each message that Listen or a relay gives to sendToAddr
    -- answers one that was received: an ack without a target a ping from that address with that period;
    -- the ping of a relay a ping-req with that target and period; the ack of a relay a ping-req from that
    -- address with that target and period, and an ack that counts for the target in that period. Neither
    -- gives it a ping-req, and each ack that waits for Probe, for a relay or to be sent to them was
    -- received. The messages that Probe sends are not among these.
    pub Reach-IsHonest :
        (log : Log) (s : Listen R self) → Reach R self crc log s → IsHonest R self log s
    Reach-IsHonest log s (begin p) = record { sent = refl; acks = refl; relays = refl; pc = refl }
    Reach-IsHonest log t (go {log = old} {s} act r e) =
        subst (Stays R self (heard R self crc act ++ old)) e
          (step-Stays old act s (Reach-IsHonest old s r))
    Reach-IsHonest log t (others p r) =
        let h = Reach-IsHonest log _ r in
        record { sent = h.sent; acks = h.acks; relays = h.relays; pc = h.pc }
