-- ===== src/Swim/Listen/Answers.antt =====
-- What it is for a message, an ack and a relay to answer a log of messages.
use commute.Prelude.{
  str_eq, ℕ, Str, Option, none, some, List, ◌++◌, Bool, true, false, not, ◌&&◌, ◌≡◌, refl, ap,
  arith, if◌then◌else◌, nat_beq, nat_beq_iff, str_beq, str_beq_iff, length, all_of, all_of_mono,
  contains_func, contains_func-append,
}
use commute.Swim.Message.{MessageKind, ping, ack, ping_req, Message}
use commute.Swim.Probe.{Ack}
use commute.Swim.Listen.{Relay, Pc, reading, sending, offer, ack_addr}

-- Messages with the address that they came from.
abbrev pub Log : Type 0
Log = List (Str × Message)

abbrev pub is_kind : MessageKind → MessageKind → Bool
is_kind ping ping = true
is_kind ack ack = true
is_kind ping_req ping_req = true
is_kind _ _ = false

-- A ping of the period from the address.
abbrev pub pinged : Str → ℕ → Str × Message → Bool
pinged from period (addr, msg) =
    is_kind msg.kind ping && str_beq addr from && nat_beq msg.period period

-- An ack of the period that counts for the address.
abbrev pub acknowledged : Str → ℕ → Str × Message → Bool
acknowledged target period (addr, msg) =
    is_kind msg.kind ack && str_beq (ack_addr msg) target && nat_beq msg.period period

-- A ping-req for the target in the period.
abbrev pub asked_for : Str → ℕ → Str × Message → Bool
asked_for target period (addr, msg) =
    is_kind msg.kind ping_req && str_beq msg.target target && nat_beq msg.period period

abbrev pub asked_by : Str → Str → ℕ → Str × Message → Bool
asked_by from target period e = str_beq e.0 from && asked_for target period e

-- Whether a message to the address answers a message of the log.
abbrev pub answers_log : Log → MessageKind → Str → ℕ → Str → Bool
answers_log log ping to period target = contains_func (asked_for to period) log
answers_log log ack to period target =
    if nat_beq (length target) 0
    then contains_func (pinged to period) log
    else contains_func (asked_by to target period) log
      && contains_func (acknowledged target period) log
answers_log log ping_req to period target = false

abbrev pub is_honest : Log → Str × Message → Bool
is_honest log (to, msg) = answers_log log msg.kind to msg.period msg.target

abbrev pub was_received : Log → Ack → Bool
was_received log a = contains_func (acknowledged a.addr a.period) log

abbrev pub was_asked : Log → Relay → Bool
was_asked log r =
    contains_func (asked_by r.requester r.key.target r.key.period) log
    && not (nat_beq (length r.key.target) 0)
    && all_of (was_received log) r.buffer

abbrev pub pc_received : Log → Pc → Bool
pc_received log reading = true
pc_received log (sending to a) = was_received log a

str_same : (a : Str) → str_beq a a ≡ true
str_same a = (str_beq_iff a a).1 refl

nat_same : (n : ℕ) → nat_beq n n ≡ true
nat_same n = (nat_beq_iff n n).1 refl

pub pinged_refl :
    (addr : Str) (msg : Message) → msg.kind ≡ ping → pinged addr msg.period (addr, msg) ≡ true
pinged_refl addr msg e =
    ground (arith, str_same addr, nat_same msg.period, ap (λ k. is_kind k ping) e)

pub acknowledged_refl :
    (addr : Str) (msg : Message)
    → msg.kind ≡ ack
    → acknowledged (ack_addr msg) msg.period (addr, msg) ≡ true
acknowledged_refl addr msg e =
    ground (arith, str_same (ack_addr msg), nat_same msg.period, ap (λ k. is_kind k ack) e)

pub asked_by_refl :
    (addr : Str) (msg : Message)
    → msg.kind ≡ ping_req
    → asked_by addr msg.target msg.period (addr, msg) ≡ true
asked_by_refl addr msg e =
    ground (
      arith,
      str_same addr,
      str_same msg.target,
      nat_same msg.period,
      ap (λ k. is_kind k ping_req) e,
    )

pub answers_log-append :
    (xs log : Log) (k : MessageKind) (to : Str) (period : ℕ) (target : Str)
    → answers_log log k to period target ≡ true
    → answers_log (xs ++ log) k to period target ≡ true
answers_log-append xs log ping to period target h =
    contains_func-append (asked_for to period) xs log h
answers_log-append xs log ack to period target h = ground (
  arith,
  contains_func-append (pinged to period) xs log,
  contains_func-append (asked_by to target period) xs log,
  contains_func-append (acknowledged target period) xs log,
)
answers_log-append xs log ping_req to period target h = h

pub was_asked-append :
    (xs log : Log) (r : Relay) → was_asked log r ≡ true → was_asked (xs ++ log) r ≡ true
was_asked-append xs log r h = ground (
  arith,
  contains_func-append (asked_by r.requester r.key.target r.key.period) xs log,
  all_of_mono (was_received log) (was_received (xs ++ log)) r.buffer
      (λ a. contains_func-append (acknowledged a.addr a.period) xs log),
)

pub pc_received-append :
    (xs log : Log) (pc : Pc) → pc_received log pc ≡ true → pc_received (xs ++ log) pc ≡ true
pc_received-append xs log reading h = h
pc_received-append xs log (sending to a) h =
    contains_func-append (acknowledged a.addr a.period) xs log h

pub received-offer :
    (log : Log) (o : Option Ack) (a : Ack)
    → all_of (was_received log) o ≡ true
    → was_received log a ≡ true
    → all_of (was_received log) (offer o a) ≡ true
received-offer log none a h k = k
received-offer log (some b) a h k = h
