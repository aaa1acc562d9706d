-- ===== src/Swim/Listen.antt =====
-- internal/swim/swim.go, Listen: what a node does with the messages that it reads, and the goroutines
-- that relay a ping for another node. Listen, each relay and Probe, which takes from the channel
-- `acks`, run at the same time: an `Action` is what one of them does between two points where the
-- others may come in. Both kinds of channel hold one ack. A relay's channel is a field of the relay,
-- is known by the relay's place, and is closed when the relay is over. `sent` holds what Listen and
-- its relays give to sendToAddr, with the address that it is for; what Probe sends is in Swim.Probe, and
-- here Probe only takes acks. `peers` is the member list that Listen shares with the other goroutines.
pub mod Answers
pub mod Relays
pub mod Honesty
pub mod Race
use commute.Prelude.{
  str_eq, ℕ, Str, Map, Key, Option, none, some, List, [], ◌∷◌, ◌++◌, Bool, true, false, ◌&&◌, ◌≡◌,
  ◌↔◌, refl, ap, arith, if◌then◌else◌, nat_beq, nat_beq_iff, str_beq, str_beq_iff, lookup, insert,
  erase, length, get_elem?, set,
}
use commute.Swim.Types.{dead, kind_beq, Event, Rng}
use commute.Swim.Peers.{Peers, process}
use commute.Swim.Message.{
  MessageKind, ping, ack, ping_req, Message, Outcome, ok, err, panic, new_message, unmarshal,
}
use commute.Swim.Probe.{Ack}

pub record RelayKey : Type 0 where
  pub target : Str
  pub period : ℕ

abbrev pub key_beq : RelayKey → RelayKey → Bool
key_beq a b = str_beq a.target b.target && nat_beq a.period b.period

pub key_beq_iff : (a b : RelayKey) → (key_beq a b ≡ true) ↔ (a ≡ b)
key_beq_iff a b = (
  λ h.
      let t = (str_beq_iff a.target b.target).0 (ground arith) in
      let n = (nat_beq_iff a.period b.period).0 (ground arith) in cc,
  λ e. rw (e, (str_beq_iff b.target b.target).1 refl, (nat_beq_iff b.period b.period).1 refl) refl,
)

instance abbrev pub key_eq : Key RelayKey
key_eq = record { same = key_beq; same_iff = key_beq_iff }

pub data RelayPhase : Type 0 where
  pinging waiting leaving over : RelayPhase

pub record Relay : Type 0 where
  pub requester : Str
  pub key : RelayKey
  pub phase : RelayPhase
  pub buffer : Option Ack

pub data Pc : Type 0 where
  reading : Pc
  -- before the select, with the channel of a relay, or none for `acks`
  sending : Option ℕ → Ack → Pc

pub data Result (A : Type 0) : Type 0 where
  next : A → Result A
  blocked panicked : Result A

-- `resolved` and `written` say whether the address is resolved and the ping written without an error.
pub data RelayAction : Type 0 where
  start : (resolved written : Bool) → RelayAction
  take_ack time_out finish : RelayAction

-- `done` says whether ctx.Done() wins against a send in process; `i` is the place of a relay.
pub data Action : Type 0 where
  receive : (done : Bool) (addr : Str) (input : List ℕ) → Action
  deliver : Action
  relay_does : (i : ℕ) → RelayAction → Action
  -- Probe: a := <-m.acks
  probe_takes : Action

-- The non-blocking send on an open channel.
abbrev pub offer : Option Ack → Ack → Option Ack
offer none a = some a
offer (some b) a = some b

abbrev pub is_over : RelayPhase → Bool
is_over pinging = false
is_over waiting = false
is_over leaving = false
is_over over = true

-- The address that an ack counts for.
abbrev pub ack_addr : Message → Str
ack_addr msg = if nat_beq (length msg.target) 0 then msg.src else msg.target

module _ (R : Rng) (self : Str) where
  pub record Listen : Type 0 where
    pub peers : Peers R
    pub acks : Option Ack
    pub relay_acks : Map RelayKey ℕ
    pub relays : List Relay
    pub pc : Pc
    pub sent : List (Str × Message)

  -- Before the loop.
  abbrev pub listening : Peers R → Listen
  listening p = record {
    peers = p;
    acks = none;
    relay_acks = [];
    relays = [];
    pc = reading;
    sent = [];
  }

  -- The loop over the events of a message.
  unfoldable pub process_dead : Bool → List Event → Peers R → Peers R
  unfolding process
  process_dead done [] p = p
  process_dead done (e ∷ events) p =
      process_dead done events (if kind_beq e.kind dead then process R done e p else p)

  -- A panic of NewMessage, or the message given to sendToAddr with what comes after.
  abbrev pub post : Str → Option Message → Listen → Result Listen
  post addr none s = panicked
  post addr (some msg) s = next (record s { sent = s.sent ++ (addr, msg) ∷ [] })

  unfoldable pub on_kind : MessageKind → Str → Message → Listen → Result Listen
  unfolding lookup insert new_message
  on_kind ack addr msg s = next (record s {
    pc =
        sending (lookup (record { target = ack_addr msg; period = msg.period }) s.relay_acks)
          (record { period = msg.period; addr = ack_addr msg });
  })
  on_kind ping addr msg s = post addr (new_message ack self msg.period []) s
  on_kind ping_req addr msg s =
      if nat_beq (length msg.target) 0
      then next s
      else (let key : RelayKey = record { target = msg.target; period = msg.period } in
          next (record s {
            relay_acks = insert key (length s.relays) s.relay_acks;
            relays =
                s.relays
                ++ (record { requester = addr; key = key; phase = pinging; buffer = none }) ∷ [];
          }))

  unfoldable pub on_message : Bool → Str → Outcome Message → Listen → Result Listen
  unfolding process_dead on_kind
  on_message done addr panic s = panicked
  on_message done addr (err e) s = next s
  on_message done addr (ok msg) s =
      on_kind msg.kind addr msg (record s { peers = process_dead done msg.events s.peers })

  unfoldable pub send_to_relay : ℕ → Ack → Option Relay → Listen → Result Listen
  send_to_relay i a none s = blocked
  send_to_relay i a (some r) s =
      if is_over r.phase
      then panicked
      else next (record s {
        relays = set s.relays i (record r { buffer = offer r.buffer a });
        pc = reading;
      })

  -- The select that sends the ack.
  unfoldable pub send_ack : Option ℕ → Ack → Listen → Result Listen
  unfolding send_to_relay
  send_ack none a s = next (record s { acks = offer s.acks a; pc = reading })
  send_ack (some i) a s = send_to_relay i a (get_elem? s.relays i) s

  -- NewMessage, and the message lost when the address is not resolved.
  abbrev pub lose : Option Message → Listen → Result Listen
  lose none s = panicked
  lose (some msg) s = next s

  -- The relay's ping.
  unfoldable pub on_start : Bool → Bool → ℕ → Relay → Listen → Result Listen
  unfolding new_message
  on_start true written i r s =
      post r.key.target (new_message ping self r.key.period []) (record s {
        relays = set s.relays i (record r { phase = if written then waiting else leaving });
      })
  on_start false written i r s =
      lose (new_message ping self r.key.period [])
        (record s { relays = set s.relays i (record r { phase = leaving }) })

  -- An ack out of the relay's channel.
  unfoldable pub on_take : ℕ → Ack → Relay → Listen → Result Listen
  unfolding new_message
  on_take i a r s =
      if nat_beq a.period r.key.period && str_beq a.addr r.key.target
      then post r.requester (new_message ack self r.key.period r.key.target)
          (record s { relays = set s.relays i (record r { phase = leaving; buffer = none }) })
      else next (record s { relays = set s.relays i (record r { buffer = none }) })

  unfoldable pub on_buffer : ℕ → Option Ack → Relay → Listen → Result Listen
  unfolding on_take
  on_buffer i none r s = blocked
  on_buffer i (some a) r s = on_take i a r s

  -- The deferred call.
  unfoldable pub on_finish : ℕ → Relay → Listen → Listen
  unfolding erase
  on_finish i r s = record s {
    relays = set s.relays i (record r { phase = over });
    relay_acks = erase r.key s.relay_acks;
  }

  unfoldable pub on_phase : RelayPhase → RelayAction → ℕ → Relay → Listen → Result Listen
  unfolding on_start on_buffer on_finish
  on_phase pinging (start resolved written) i r s = on_start resolved written i r s
  on_phase waiting take_ack i r s = on_buffer i r.buffer r s
  on_phase waiting time_out i r s =
      next (record s { relays = set s.relays i (record r { phase = leaving }) })
  on_phase leaving finish i r s = next (on_finish i r s)
  on_phase _ _ i r s = blocked

  unfoldable pub at_relay : Option Relay → RelayAction → ℕ → Listen → Result Listen
  unfolding on_phase
  at_relay none act i s = blocked
  at_relay (some r) act i s = on_phase r.phase act i r s

  -- Probe takes an ack.
  abbrev pub on_acks : Option Ack → Listen → Result Listen
  on_acks none s = blocked
  on_acks (some a) s = next (record s { acks = none })

  module _ (crc : List ℕ → ℕ) where
    -- Listen reads a datagram, or is before the select.
    unfoldable pub on_pc : Pc → Action → Listen → Result Listen
    unfolding on_message unmarshal send_ack
    on_pc reading (receive done addr input) s = on_message done addr (unmarshal crc input) s
    on_pc (sending to a) deliver s = send_ack to a s
    on_pc _ _ s = blocked

    unfoldable pub step : Action → Listen → Result Listen
    unfolding on_pc at_relay
    step (receive done addr input) s = on_pc s.pc (receive done addr input) s
    step deliver s = on_pc s.pc deliver s
    step (relay_does i act) s = at_relay (get_elem? s.relays i) act i s
    step probe_takes s = on_acks s.acks s

    abbrev pub decoded : Str → Outcome Message → List (Str × Message)
    decoded addr panic = []
    decoded addr (err e) = []
    decoded addr (ok msg) = (addr, msg) ∷ []

    -- The message that an action gets, with the address that it comes from.
    abbrev pub heard : Action → List (Str × Message)
    heard (receive done addr input) = decoded addr (unmarshal crc input)
    heard _ = []

    -- The states after any actions in any order, with the messages that were received. Probe, a join or
    -- Bootstrap may change the member list at any time, and into any other.
    pub data Reach : List (Str × Message) → Listen → Type 0 where
      begin : (p : Peers R) → Reach [] (listening p)
      go :
          {log : List (Str × Message)} {s t : Listen} (act : Action)
          → Reach log s
          → step act s ≡ next t
          → Reach (heard act ++ log) t
      others :
          {log : List (Str × Message)} {s : Listen} (p : Peers R)
          → Reach log s
          → Reach log (record s { peers = p })
