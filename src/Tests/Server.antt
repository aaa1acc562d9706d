-- ===== src/Tests/Server.antt =====
-- A server with one peer, and a codec that writes every port as 0 and reads every body as 5.
use commute.Prelude.{
  str_eq, ap, ℕ, ◌+◌, Str, Option, none, some, List, [], ◌∷◌, ◌++◌, Bool, true, false, ◌≡◌, refl,
  arith, lookup, pos, ◌+ℤ◌, contains_func,
}
use commute.Crdt.PnCounter
use commute.Swim.Types.{alive, Event, Peer}
use commute.Store.{new_store}
use commute.Store.Part
use commute.Store.Reads.{counter_of}
use commute.Server.{
  Codec, Server, has_prefix, host, known_sender, notify, notify_event, parse_node_addr, http_addr,
  post_gossip, post_ack, bad_request, get_counters, post_counters, status_ok,
}
use commute.Server.Peers.{host_prefix, parse_node_addr-notify_dead, post_gossip-notify_event}
use commute.Server.Counters.{get_counters-post_counters}
use commute.Tests.{node_b, node_c}

abbrev first_byte : Str → ℕ
first_byte [] = 0
first_byte (c ∷ s) = c

abbrev fives : Codec
fives = record {
  format_uint = λ n. 48 ∷ [];
  counter_request = λ b. some (record { increment = 5; decrement = 0 });
  register_body = λ b. some (some b);
  message = λ b. none;
  ack_message = λ b. none;
}

-- a:0, the HTTP address of node a
abbrev addr_a : Str
addr_a = 97 ∷ 58 ∷ 48 ∷ []

abbrev one_peer : Server
one_peer = record { peers = addr_a ∷ []; store = new_store node_c }

abbrev peer_b : Peer
peer_b = record { udp_addr = node_b; http_port = 0 }

parse_node_addr-notify_dead_example : has_prefix addr_a (host_prefix peer_b) ≡ false
unfolding parse_node_addr known_sender notify contains_func host has_prefix
    commute.Prelude.delete_func
parse_node_addr-notify_dead_example =
    parse_node_addr-notify_dead fives peer_b one_peer (addr_a ∷ []) addr_a refl

-- Ports of one digit.
abbrev digits : Codec
digits = record fives { format_uint = λ n. (48 + n) ∷ [] }

abbrev peer_b_seven : Peer
peer_b_seven = record { udp_addr = node_b; http_port = 7 }

abbrev alive_b : Event
alive_b = record { kind = alive; node = node_b }

post_gossip-notify_event_example :
    (post_gossip digits
        (http_addr digits peer_b_seven ∷ [])
        (some [])
        (notify_event digits alive_b one_peer)
      ≡ some ((bad_request, none), notify_event digits alive_b one_peer))
    × (post_ack digits
          (http_addr digits peer_b_seven ∷ [])
          (some [])
          (notify_event digits alive_b one_peer)
        ≡ (bad_request, notify_event digits alive_b one_peer))
    × (parse_node_addr
          (http_addr digits peer_b_seven ∷ [])
          (notify digits peer_b_seven alive one_peer)
        ≡ some (http_addr digits peer_b_seven))
unfolding http_addr host contains_func
post_gossip-notify_event_example =
    post_gossip-notify_event digits peer_b_seven one_peer (some [])
      (λ e. absurd (let f : 55 ≡ 48 = ap first_byte e in omega (arith, f))) refl

get_counters-post_counters_example :
    ((post_counters fives node_c (some []) one_peer).0 ≡ status_ok)
    × (get_counters fives node_c (post_counters fives node_c (some []) one_peer).1
        ≡ (status_ok, some (PnCounter.value (counter_of one_peer.store node_c) +ℤ pos 5)))
unfolding new_store Part.empty lookup PnCounter.new
get_counters-post_counters_example =
    get_counters-post_counters fives 99 [] [] 5 one_peer refl (omega arith) (omega arith)
      (omega arith)
