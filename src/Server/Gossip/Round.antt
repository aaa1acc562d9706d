-- ===== src/Server/Gossip/Round.antt =====
-- A tick of one server, the other's answer, and the acknowledgement.
use mathlib.Core.Option
use commute.Prelude.{str_eq, Str, Option, some, true, ◌≡◌}
use commute.Store
use commute.Store.{Store, Message}
use commute.Server.{Server, is_peer}
use commute.Server.Gossip.{Push}

abbrev push_of : Str → Str → Message → Push Message
push_of advertise peer msg = record { to = peer; node_addr = advertise; body = msg }

-- What is sent goes to a peer, with this server's address, and is Delta's message for it.
record Sent (advertise : Str) (srv : Server) (push : Push Message) : Type 0 where
  known : is_peer push.to srv ≡ true
  from : push.node_addr ≡ advertise
  delta : Store.delta push.to srv.store ≡ some (some push.body)
