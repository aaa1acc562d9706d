-- ===== src/Tests/Gossip.antt =====
-- Two new servers that know each other: the one at address a gossips to the one at address b.
use commute.Prelude.{str_eq, ℕ, Str, Option, none, some, List, [], ◌∷◌, length}
use commute.Store
use commute.Store.{Store, Message, AckMessage, new_store}
use commute.Store.Acks.{answer}
use commute.Server.{Codec, Server}
use commute.Server.Gossip.{Push}
use commute.Tests.{node_a, node_b}
use commute.Tests.Store.{first_message}

abbrev decoder : Codec
decoder = record {
  format_uint = λ n. [];
  counter_request = λ b. none;
  register_body = λ b. none;
  message = λ b. some first_message;
  ack_message = λ b. some (answer first_message);
}

abbrev server_a : Server
server_a = record { peers = node_b ∷ []; store = new_store node_a }

abbrev server_b : Server
server_b = record { peers = node_a ∷ []; store = new_store node_b }

abbrev first_push : Push Message
first_push = record { to = node_b; node_addr = node_a; body = first_message }
