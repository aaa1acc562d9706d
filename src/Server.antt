-- ===== src/Server.antt =====
-- internal/server/server.go: the server's peers and its handlers. A request's body is none if it is
-- missing or cannot be read. JSON and strconv are the parameters of `Codec`. A handler gives the
-- status and the server; `none` is a panic in a set.
pub mod Peers
pub mod Counters
pub mod Sets
pub mod Gossip
use mathlib.Core.Option
use commute.Prelude.{
  str_eq, ℕ, ◌<◌, Str, Option, none, some, List, [], ◌∷◌, ◌++◌, Bool, true, false, ◌&&◌, ◌||◌,
  if◌then◌else◌, ltb, nat_beq, str_beq, delete_func, contains_func, ℤ,
}
use commute.Swim.Types.{EventKind, dead, alive, Event, Peer, new_peer}
use commute.Store
use commute.Store.{Store, Message, AckMessage}

-- Server: the fields that requests and events change.
pub record Server : Type 0 where
  pub peers : List Str
  pub store : Store

-- counterRequest
pub record CounterRequest : Type 0 where
  pub increment : ℕ
  pub decrement : ℕ

pub record Codec : Type 0 where
  pub format_uint : ℕ → Str
  pub counter_request : Str → Option CounterRequest
  -- The value is none if it is missing.
  pub register_body : Str → Option (Option Str)
  pub message : Str → Option Message
  pub ack_message : Str → Option AckMessage

-- strings.Cut(s, ":"), the part before
unfoldable pub host : Str → Str
host [] = []
host (c ∷ s) = let rest = host s in if nat_beq c 58 then [] else c ∷ rest

-- strings.HasPrefix
unfoldable pub has_prefix : Str → Str → Bool
has_prefix s [] = true
has_prefix [] (b ∷ p) = false
has_prefix (a ∷ s) (b ∷ p) = nat_beq a b && has_prefix s p

-- slices.Contains
abbrev pub is_peer : Str → Server → Bool
is_peer addr srv = contains_func (str_beq addr) srv.peers

-- The statuses that the handlers answer with.
abbrev pub status_ok : ℕ
status_ok = 200

abbrev pub bad_request : ℕ
bad_request = 400

abbrev pub not_found : ℕ
not_found = 404

unfoldable pub known_sender : Str → Server → Option Str
known_sender [] srv = none
known_sender (c ∷ s) srv = if is_peer (c ∷ s) srv then some (c ∷ s) else none

-- parseNodeAddr: the values of the header X-Node-Addr, of which a header that is there has one at
-- least, and the sender, or none for an error.
unfoldable pub parse_node_addr : List Str → Server → Option Str
unfolding known_sender
parse_node_addr [] srv = none
parse_node_addr (addr ∷ []) srv = known_sender addr srv
parse_node_addr (_ ∷ (_ ∷ _)) srv = none

module _ (C : Codec) where
  -- Peer.HTTPAddr
  unfoldable pub http_addr : Peer → Str
  unfolding host
  http_addr p = host p.udp_addr ++ 58 ∷ C.format_uint p.http_port

  -- Notify
  unfoldable pub notify : Peer → EventKind → Server → Server
  unfolding http_addr host has_prefix
  notify p alive srv =
      if is_peer (http_addr p) srv
      then srv
      else record srv { peers = srv.peers ++ http_addr p ∷ [] }
  notify p dead srv = record srv {
    peers = delete_func (λ q. has_prefix q (host p.udp_addr ++ 58 ∷ [])) srv.peers;
  }

  -- The call of Notify for a membership event.
  unfoldable pub notify_event : Event → Server → Server
  unfolding notify
  notify_event e srv = notify (new_peer e.node) e.kind srv

  -- getCounters
  unfoldable pub get_counters : Str → Server → ℕ × Option ℤ
  unfolding Store.get_counter
  get_counters [] srv = (bad_request, none)
  get_counters (c ∷ key) srv = elim (Store.get_counter (c ∷ key) srv.store) [
    | none ↦ (not_found, none)
    | some value ↦ (status_ok, some value)
  ]

  unfoldable pub count : Str → CounterRequest → Server → ℕ × Server
  unfolding Store.increment_counter Store.decrement_counter
  count key body srv =
      if (ltb 0 body.increment && ltb 0 body.decrement)
        || (nat_beq body.increment 0 && nat_beq body.decrement 0)
      then (bad_request, srv)
      else (
        status_ok,
        if ltb 0 body.increment
            then record srv { store = Store.increment_counter key body.increment srv.store }
            else record srv { store = Store.decrement_counter key body.decrement srv.store },
      )

  -- postCounters
  unfoldable pub post_counters : Str → Option Str → Server → ℕ × Server
  unfolding count
  post_counters [] body srv = (bad_request, srv)
  post_counters (c ∷ key) none srv = (bad_request, srv)
  post_counters (c ∷ key) (some b) srv = elim (C.counter_request b) [
    | none ↦ (bad_request, srv)
    | some body ↦ count (c ∷ key) body srv
  ]

  -- getRegister
  unfoldable pub get_register : Str → Server → ℕ × Option Str
  unfolding Store.get_register
  get_register [] srv = (bad_request, none)
  get_register (c ∷ key) srv = elim (Store.get_register (c ∷ key) srv.store) [
    | none ↦ (not_found, none)
    | some value ↦ (status_ok, some value)
  ]

  -- putRegister, at the clock reading `now`
  unfoldable pub put_register : ℕ → Str → Option Str → Server → ℕ × Server
  unfolding Store.set_register
  put_register now [] body srv = (bad_request, srv)
  put_register now (c ∷ key) none srv = (bad_request, srv)
  put_register now (c ∷ key) (some b) srv = elim (C.register_body b) [
    | none ↦ (bad_request, srv)
    | some none ↦ (bad_request, srv)
    | some (some v) ↦
        (status_ok, record srv { store = Store.set_register (c ∷ key) now v srv.store })
  ]

  -- postGossip: the status, and the acknowledgement with its receiver, if one is sent.
  unfoldable pub post_gossip :
      List Str → Option Str → Server → Option ((ℕ × Option (AckMessage × Str)) × Server)
  unfolding parse_node_addr Store.merge
  post_gossip header body srv = elim (parse_node_addr header srv) [
    | none ↦ some ((bad_request, none), srv)
    | some sender ↦ elim (Option.bind body C.message) [
      | none ↦ some ((bad_request, none), srv)
      | some msg ↦
          Option.map (λ r. ((status_ok, some (r.0, sender)), record srv { store = r.1 }))
            (Store.merge msg srv.store)
    ]
  ]

  -- postAck
  unfoldable pub post_ack : List Str → Option Str → Server → ℕ × Server
  unfolding parse_node_addr Store.ack
  post_ack header body srv = elim (parse_node_addr header srv) [
    | none ↦ (bad_request, srv)
    | some sender ↦ elim (Option.bind body C.ack_message) [
      | none ↦ (bad_request, srv)
      | some ack ↦ (status_ok, record srv { store = Store.ack sender ack srv.store })
    ]
  ]
