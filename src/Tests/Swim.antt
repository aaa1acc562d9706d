-- ===== src/Tests/Swim.antt =====
-- Member lists and messages: a source of random numbers that always gives 0, and a checksum that is 0.
use commute.Prelude.{
  str_beq, delete_func, insert, str_eq, ℕ, ◌≤◌, Str, some, List, [], ◌∷◌, ◌++◌, map, Bool, true,
  false, ◌≡◌, ◌≢◌, refl, arith, lookup, erase, length, count, contains_func, is_some, or_else,
  get_elem?, ap,
}
use commute.Swim.Types.{dead, alive, Peer, new_peer, JoinBody, Rng}
use commute.Swim.Peers.{Peers, join, member_join}
use commute.Swim.Peers.Join.{members, members-join, joined, admitted}
use commute.Swim.Peers.Invariant.{IsValid, member_join-IsValid, join-keeps_dead}
use commute.Swim.Peers.Rounds.{probes, probes_pass}
use commute.Swim.Subgroup.{k_random_peers, k_random_peers_lem, draw_loop, draw, values}
use commute.Swim.Message.{
  ping, Message, ok, panic, marshal, unmarshal, kind_byte, max_message_size, udp_payload,
}
use commute.Swim.Message.Bytes.{big_endian}
use commute.Swim.Message.RoundTrip.{unmarshal-marshal}
use commute.Swim.Message.Bounds.{marshal_fits, unmarshal_panics}
use commute.Tests.{node_a, node_b, node_c}

abbrev pub zeros : Rng
zeros = record { Gen = Unit; int_n = λ n g. (0, g); int_n-lt = λ n g h. h }

abbrev pub started : Peers zeros
started = record {
  peers = [];
  probe_cursor = 0;
  subgroup_size = 3;
  state = [];
  dead_peers = (node_b, tt) ∷ [];
  events = [];
  rng = tt;
}

pub started-IsValid : IsValid zeros node_a started
started-IsValid = record { unique = λ a. omega arith; no_self = refl; not_dead = λ a h. refl }

-- Node b, which is dead, and node c, as node c sends them.
abbrev pub from_c : JoinBody
from_c = record { src = node_c; peers = new_peer node_b ∷ new_peer node_c ∷ [] }

abbrev pub two_members : Peers zeros
two_members = record {
  peers = new_peer node_b ∷ new_peer node_c ∷ [];
  probe_cursor = 2;
  subgroup_size = 3;
  state = [];
  dead_peers = [];
  events = [];
  rng = tt;
}

members-join_example :
    members zeros node_c (join zeros node_a from_c started).1
    ≡ joined zeros (admitted zeros node_a (erase node_c started.dead_peers) node_c) true 0
unfolding contains_func
members-join_example = members-join zeros node_a node_c from_c started

member_join-IsValid_example : IsValid zeros node_a (member_join zeros false node_a from_c started)
member_join-IsValid_example = member_join-IsValid zeros node_a false from_c started started-IsValid

different : {a b : ℕ} → a ≢ b → (a ∷ []) ≢ (b ∷ [])
different n e = n (ap (λ (l : Str). or_else (get_elem? l 0) 0) e)

join-keeps_dead_example :
    (is_some (lookup node_b (join zeros node_a from_c started).1.dead_peers) ≡ true)
    × (members zeros node_b (join zeros node_a from_c started).1 ≡ 0)
unfolding lookup
join-keeps_dead_example =
    join-keeps_dead zeros node_a node_b from_c started started-IsValid refl
      (different (λ e. omega arith))

probes_pass_example :
    (xs : List Peer) × ((probes zeros 2 two_members).0 ≡ map some xs)
    × ((q : Peer → Bool) → count q xs ≡ count q two_members.peers)
probes_pass_example = probes_pass zeros two_members (omega arith) (omega arith)

abbrev three_members : Peers zeros
three_members = record two_members {
  peers = new_peer node_b ∷ new_peer node_a ∷ new_peer node_c ∷ [];
  subgroup_size = 1;
}

k_random_peers_lem_example :
    (1 ≤ 1) × (1 ≤ members zeros node_b three_members) × (str_beq node_a node_b ≡ false)
unfolding k_random_peers delete_func draw_loop draw values lookup insert
k_random_peers_lem_example =
    k_random_peers_lem zeros (new_peer node_a) three_members (new_peer node_b ∷ []) node_b
      (omega arith) refl (omega arith)

abbrev no_crc : List ℕ → ℕ
no_crc input = 0

abbrev ping_of_a : Message
ping_of_a = record {
  version = 1;
  kind = ping;
  src = node_a;
  period = 258;
  target = node_b;
  events = record { kind = dead; node = node_c } ∷ record { kind = alive; node = node_b } ∷ [];
}

unmarshal-marshal_example : unmarshal no_crc (marshal no_crc ping_of_a) ≡ ok ping_of_a
unmarshal-marshal_example =
    unmarshal-marshal no_crc ping_of_a (λ input. omega arith)
      (record {
        version = refl;
        src_some = omega arith;
        src_fits = omega arith;
        target_fits = omega arith;
        events_fit = (omega arith, (omega arith, tt));
        events_few = omega arith;
        period = omega arith;
      })

marshal_fits_example :
    (length (marshal no_crc ping_of_a) ≤ max_message_size) × (max_message_size ≤ udp_payload)
marshal_fits_example =
    marshal_fits no_crc ping_of_a (omega arith) (omega arith) (omega arith, (omega arith, tt))
      (omega arith)

unmarshal_panics_example :
    (forged : List ℕ) × (forged
      ≡ 1 ∷ 1 ∷ (node_a ++ kind_byte ping ∷ (big_endian 8 258 ++ 5 ∷ 0 ∷ [])))
    × (unmarshal no_crc (forged ++ big_endian 4 (no_crc forged)) ≡ panic)
unmarshal_panics_example =
    unmarshal_panics no_crc ping node_a 258 5 0 (λ input. omega arith) (omega arith) (omega arith)
      (omega arith) (omega arith)
