-- ===== src/Swim/Message.antt =====
-- internal/swim/message.go and event.go: the wire format of SWIM messages. `hash/crc32` is the
-- parameter `crc`. An index or a slice out of range is a panic of the program.
pub mod Bytes
pub mod RoundTrip
pub mod Bounds
use commute.Prelude.{
  ℕ, zero, suc, ◌+◌, ◌-◌, ◌*◌, ◌/◌, ◌%◌, Str, Option, none, some, List, [], ◌∷◌, ◌++◌, Bool, true,
  false, if◌then◌else◌, ltb, leb, nat_beq, length, get_elem?, take, drop,
}
use commute.Swim.Types.{EventKind, dead, alive, Event}
use Bytes.{big_endian, of_big_endian}

-- messageKind
pub data MessageKind : Type 0 where
  ping ack ping_req : MessageKind

pub record Message : Type 0 where
  pub version : ℕ
  pub kind : MessageKind
  pub src : Str
  pub period : ℕ
  pub target : Str
  pub events : List Event

abbrev pub message_version : ℕ
message_version = 1

abbrev pub event_header_size : ℕ
event_header_size = 2

abbrev pub max_target_size : ℕ
max_target_size = 47

abbrev pub max_event_size : ℕ
max_event_size = event_header_size + max_target_size

abbrev pub min_message_size : ℕ
min_message_size = 13 + 4

abbrev pub max_base_message_size : ℕ
max_base_message_size = min_message_size + max_target_size + max_target_size

abbrev pub udp_payload : ℕ
udp_payload = 576 - 20 - 8

abbrev pub max_piggyback_events : ℕ
max_piggyback_events = (udp_payload - max_base_message_size) / max_event_size

abbrev pub max_message_size : ℕ
max_message_size = max_base_message_size + max_piggyback_events * max_event_size

pub data DecodeError : Type 0 where
  too_short bad_checksum bad_version no_src length_mismatch too_long unknown_kind unknown_event :
      DecodeError

pub data Outcome (A : Type 0) : Type 0 where
  ok : A → Outcome A
  err : DecodeError → Outcome A
  panic : Outcome A

infixl 5 ◌>>=◌ ◌>>◌
abbrev pub ◌>>=◌ : {A B : Type 0} → Outcome A → (A → Outcome B) → Outcome B
ok a >>= f = f a
err e >>= f = err e
panic >>= f = panic

abbrev pub ◌>>◌ : {B : Type 0} → Outcome Unit → Outcome B → Outcome B
m >> k = m >>= λ _. k

-- An early return with an error.
abbrev pub fail_if : Bool → DecodeError → Outcome Unit
fail_if true e = err e
fail_if false e = ok tt

abbrev pub in_range : Option ℕ → Outcome ℕ
in_range none = panic
in_range (some b) = ok b

-- input[i]
abbrev pub index : List ℕ → ℕ → Outcome ℕ
index input i = in_range (get_elem? input i)

-- input[low:high]
abbrev pub slice : List ℕ → ℕ → ℕ → Outcome (List ℕ)
slice input low high =
    if leb low high
    then (if leb high (length input) then ok (take (high - low) (drop low input)) else panic)
    else panic

abbrev pub kind_byte : MessageKind → ℕ
kind_byte ping = 0
kind_byte ack = 1
kind_byte ping_req = 2

abbrev pub kind_of_byte : ℕ → Outcome MessageKind
kind_of_byte b =
    if nat_beq b 0
    then ok ping
    else if nat_beq b 1
    then ok ack
    else if nat_beq b 2
    then ok ping_req
    else err unknown_kind

abbrev pub event_byte : EventKind → ℕ
event_byte dead = 0
event_byte alive = 1

abbrev pub event_of_byte : ℕ → Outcome EventKind
event_of_byte b =
    if nat_beq b 0 then ok dead else if nat_beq b 1 then ok alive else err unknown_event

-- NewMessage: none is a panic.
unfoldable pub new_message : MessageKind → Str → ℕ → Str → Option Message
new_message kind src period target =
    if nat_beq (length src) 0
    then none
    else if ltb max_target_size (length target)
    then none
    else some (record {
      version = message_version;
      kind = kind;
      src = src;
      period = period;
      target = target;
      events = [];
    })

unfoldable pub marshal_events : List Event → List ℕ
marshal_events [] = []
marshal_events (e ∷ es) = event_byte e.kind ∷ (length e.node % 256) ∷ (e.node ++ marshal_events es)

-- Everything but the checksum.
unfoldable pub marshal_body : Message → List ℕ
unfolding marshal_events big_endian
marshal_body m =
    message_version
    ∷ (length m.src % 256)
    ∷ (m.src
        ++ kind_byte m.kind
          ∷ (big_endian 8 m.period
              ++ (length m.target % 256)
                ∷ (m.target ++ (length m.events % 256) ∷ marshal_events m.events)))

-- unmarshalString
unfoldable pub unmarshal_string : ℕ → List ℕ → Outcome Str
unmarshal_string n input =
    if nat_beq n 0
    then ok []
    else if ltb (length input) n
    then err length_mismatch
    else if ltb max_target_size n
    then err too_long
    else ok (take n input)

-- Event.UnmarshalBinary: the event and the number of bytes that it took.
unfoldable pub unmarshal_event : List ℕ → Outcome (Event × ℕ)
unfolding unmarshal_string
unmarshal_event input = do
  fail_if (ltb (length input) event_header_size) too_short
  b ← index input 0
  kind ← event_of_byte b
  n ← index input 1
  node ← unmarshal_string n (drop 2 input)
  ok (record { kind = kind; node = node }, event_header_size + length node)

-- The loop over the events.
unfoldable pub unmarshal_events : ℕ → List ℕ → Outcome (List Event)
unmarshal_events zero input = ok []
unmarshal_events (suc n) input = do
  (e, used) ← unmarshal_event input
  es ← unmarshal_events n (drop used input)
  ok (e ∷ es)

module _ (crc : List ℕ → ℕ) where
  -- MarshalBinary
  unfoldable pub marshal : Message → List ℕ
  unfolding marshal_body
  marshal m = marshal_body m ++ big_endian 4 (crc (marshal_body m))

  -- UnmarshalBinary
  unfoldable pub unmarshal : List ℕ → Outcome Message
  unfolding of_big_endian
  unmarshal input = do
    fail_if (ltb (length input) min_message_size) too_short
    body ← slice input 0 (length input - 4)
    sum ← slice input (length input - 4) (length input)
    fail_if (if nat_beq (of_big_endian sum) (crc body) then false else true) bad_checksum
    version ← index input 0
    fail_if (if nat_beq version message_version then false else true) bad_version
    src_len ← index input 1
    fail_if (nat_beq src_len 0) no_src
    src ← unmarshal_string src_len (drop 2 input)
    let s = 2 + src_len
    fail_if (ltb (length input - 4) (s + 11)) too_short
    kind_b ← index input s
    kind ← kind_of_byte kind_b
    period ← slice input (s + 1) (s + 9)
    target_len ← index input (s + 9)
    target ← unmarshal_string target_len (drop (s + 10) input)
    rest ← slice input (s + 11 + target_len) (length input - 4)
    count ← index input (s + 10 + target_len)
    events ← unmarshal_events count rest
    ok (record {
      version = version;
      kind = kind;
      src = src;
      period = of_big_endian period;
      target = target;
      events = events;
    })
