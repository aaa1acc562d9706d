-- ===== src/Tests/Probe.antt =====
-- A period in which node a probes node b, while node c is a member too.
use commute.Prelude.{
  str_eq, ℕ, Str, some, [], ◌∷◌, true, false, not, ◌&&◌, ◌≡◌, refl, if◌then◌else◌, arith, length,
  lookup, is_some, str_beq, ltb, zero, suc,
}
use commute.Swim.Types.{new_peer, Peer}
use commute.Swim.Peers.{Peers, process, next_probe}
use commute.Swim.Peers.Death.{death}
use commute.Swim.Peers.Skip.{next_probe-death}
use commute.Swim.Peers.Join.{members}
use commute.Swim.Subgroup.{k_random_peers}
use commute.Swim.Probe.{
  ready, waiting, ack_timeout, period_over, acked, Ack, Probe, take_signal, take_signals, periods,
}
use commute.Swim.Probe.Waiting.{Kept}
use commute.Swim.Probe.Round.{unanswered_dead, answered_kept}
use commute.Swim.Probe.Turns.{Answered, silent_dead}
use commute.Swim.Probe.Panic.{some_peer, ack_timeout_panics}
use commute.Tests.{node_a, node_b, node_c}
use commute.Tests.Swim.{zeros, two_members}

abbrev probing : Peer → Probe zeros node_a
probing p = record { peers = two_members; period = 4; phase = waiting p; sent = [] }

abbrev late_ack : Ack
late_ack = record { period = 3; addr = node_b }

abbrev ack_of_b : Ack
ack_of_b = record { period = 4; addr = node_b }

unanswered_dead_example :
    (t : Probe zeros node_a) × (take_signals zeros node_a
        (acked late_ack ∷ ack_timeout ∷ period_over false ∷ [])
        (probing (new_peer node_b))
      ≡ some t)
    × (t.phase ≡ ready)
    × ((b : Str)
        → members zeros b t.peers ≡ (if str_beq node_b b then 0 else members zeros b two_members))
    × (is_some (lookup node_b t.peers.dead_peers) ≡ true)
unfolding lookup
unanswered_dead_example =
    unanswered_dead zeros node_a (omega arith) (new_peer node_b) (omega arith)
      (acked late_ack ∷ ack_timeout ∷ []) false (probing (new_peer node_b)) refl refl refl

answered_kept_example :
    (t : Probe zeros node_a) × (take_signals zeros node_a
        (ack_timeout ∷ acked ack_of_b ∷ acked late_ack ∷ period_over false ∷ [])
        (probing (new_peer node_b))
      ≡ some t)
    × (t.phase ≡ ready)
    × (t.period ≡ 4)
    × Kept zeros node_a two_members t.peers
answered_kept_example =
    answered_kept zeros node_a (omega arith) (new_peer node_b) (omega arith) (ack_timeout ∷ [])
      ack_of_b (acked late_ack ∷ []) false (probing (new_peer node_b)) refl refl refl refl

abbrev letters : ℕ → Str
letters zero = []
letters (suc n) = 97 ∷ letters n

abbrev long_address : Str
long_address = letters 48

ack_timeout_panics_example :
    is_some (take_signal zeros node_a ack_timeout (probing (new_peer long_address)))
    ≡ not (
        some_peer (k_random_peers zeros (new_peer long_address) two_members).0
        && ltb 47 (length long_address))
ack_timeout_panics_example =
    ack_timeout_panics zeros node_a (new_peer long_address) (probing (new_peer long_address))
      (omega arith) refl

-- The round begins with node b, which answers, and node c, the next, does not.
abbrev round_begins : Probe zeros node_a
round_begins = record {
  peers = record two_members { probe_cursor = 0 };
  period = 4;
  phase = ready;
  sent = [];
}

abbrev answer_of_b : Answered
answer_of_b = record {
  peer = new_peer node_b;
  before = ack_timeout ∷ [];
  reply = record { period = 5; addr = node_b };
  after = [];
  done = false;
}

silent_dead_example :
    (t : Probe zeros node_a) × (periods zeros node_a
        ((ack_timeout ∷ acked (record { period = 5; addr = node_b }) ∷ period_over false ∷ [])
          ∷ (ack_timeout ∷ period_over false ∷ [])
          ∷ [])
        round_begins
      ≡ some t)
    × (t.phase ≡ ready)
    × (members zeros node_c t.peers ≡ 0)
    × (is_some (lookup node_c t.peers.dead_peers) ≡ true)
unfolding lookup
silent_dead_example =
    silent_dead zeros node_a (omega arith) (new_peer node_c) (omega arith) [] (ack_timeout ∷ [])
      false (answer_of_b ∷ []) round_begins refl refl
      (
        record {
          short = omega arith;
          undecided_before = refl;
          answered = refl;
          within_after = refl;
        },
        tt,
      )
      refl refl

abbrev node_d : Str
node_d = 100 ∷ []

-- Node b has just had its turn.
abbrev three_members : Peers zeros
three_members = record two_members {
  peers = new_peer node_b ∷ new_peer node_c ∷ new_peer node_d ∷ [];
  probe_cursor = 1;
}

next_probe-death_example :
    ((next_probe zeros three_members).0 ≡ some (new_peer node_c))
    × ((next_probe zeros (process zeros false (death node_b) three_members)).0
        ≡ some (new_peer node_d))
unfolding lookup
next_probe-death_example =
    next_probe-death zeros false [] (new_peer node_b) (new_peer node_c) (new_peer node_d) []
      three_members refl refl refl refl
