-- ===== src/Swim/Types.antt =====
-- internal/swim/event.go and swim.go: events and peers, and the source of random numbers.
use commute.Prelude.{ℕ, ◌<◌, Str, Bool, true, false, str_beq, List}

-- EventKind
pub data EventKind : Type 0 where
  dead alive : EventKind

abbrev pub kind_beq : EventKind → EventKind → Bool
kind_beq dead dead = true
kind_beq alive alive = true
kind_beq _ _ = false

-- Event
pub record Event : Type 0 where
  pub kind : EventKind
  pub node : Str

-- Peer
pub record Peer : Type 0 where
  pub udp_addr : Str
  pub http_port : ℕ

-- NewPeer
abbrev pub new_peer : Str → Peer
new_peer addr = record { udp_addr = addr; http_port = 0 }

abbrev pub has_addr : Str → Peer → Bool
has_addr addr p = str_beq p.udp_addr addr

-- joinBody; a `joinPeer` has the fields of a Peer.
pub record JoinBody : Type 0 where
  pub src : Str
  pub peers : List Peer

-- math/rand/v2: `IntN(n)` is a number in [0, n).
pub record Rng : Type 1 where
  pub Gen : Type 0
  pub int_n : ℕ → Gen → ℕ × Gen
  pub int_n-lt : (n : ℕ) (g : Gen) → 0 < n → (int_n n g).0 < n
