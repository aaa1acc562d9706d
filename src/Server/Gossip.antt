-- ===== src/Server/Gossip.antt =====
-- internal/server/server.go, StartGossip and sendAck: what a server sends to another. A request is a
-- `Push`; that it arrives, and the status of the answer, which is only logged, are left out. The outer
-- option is a panic.
pub mod Round
use mathlib.Core.Option
use commute.Prelude.{
  ℕ, Str, Option, none, some, List, [], ◌∷◌, Bool, if◌then◌else◌, nat_beq, length, get_elem?,
}
use commute.Swim.Types.{Rng}
use commute.Store
use commute.Store.{Message, AckMessage}
use commute.Server.{Server}

-- A POST with the header X-Node-Addr.
pub record Push (A : Type 0) : Type 0 where
  pub to : Str
  pub node_addr : Str
  pub body : A

-- From Delta to the request: `advertise` is this server's address.
unfoldable pub gossip_to : Str → Option Str → Server → Option (Option (Push Message))
unfolding Store.delta
gossip_to advertise none srv = none
gossip_to advertise (some peer) srv =
    Option.map (Option.map (λ msg. record { to = peer; node_addr = advertise; body = msg }))
      (Store.delta peer srv.store)

-- One tick of the loop.
unfoldable pub tick : (R : Rng) → Str → Server → R.Gen → Option (Option (Push Message)) × R.Gen
unfolding gossip_to
tick R advertise srv g =
    if nat_beq (length srv.peers) 0
    then (some none, g)
    else (let (i, g') = R.int_n (length srv.peers) g in
        (gossip_to advertise (get_elem? srv.peers i) srv, g'))

-- sendAck
unfoldable pub send_ack : Str → AckMessage → Str → Push AckMessage
send_ack advertise ack sender = record { to = sender; node_addr = advertise; body = ack }
