-- ===== src/Tests/Bootstrap.antt =====
-- Node a, which holds node b for dead, joins node b; and three rounds of Bootstrap.
use commute.Prelude.{
  ℕ, ◌+◌, ◌*◌, ◌/◌, ◌≤◌, ◌<◌, min, Str, some, List, [], ◌∷◌, false, ◌≡◌, refl, ap, arith,
}
use commute.Swim.Types.{JoinBody}
use commute.Swim.Peers.{Peers, new, as_join_body}
use commute.Swim.Peers.Join.{members}
use commute.Swim.Peers.Invariant.{IsValid, new-IsValid}
use commute.Swim.Bootstrap.{
  second, Reply, unreachable, rejected, joined, join_seeds, join_handler, unjoined, round, rounds,
}
use commute.Swim.Bootstrap.Backoff.{interval_at, rounds-wait}
use commute.Swim.Bootstrap.Exchange.{members-exchange}
use commute.Tests.{node_a, node_b}
use commute.Tests.Swim.{zeros, started, started-IsValid, from_c}

abbrev alone : Peers zeros
alone = new zeros 3 tt

abbrev first_byte : Str → ℕ
first_byte [] = 0
first_byte (c ∷ s) = c

members-exchange_example :
    (answer : JoinBody) × (seed : Peers zeros) × (join_handler zeros
        (λ b. some (as_join_body zeros started node_a 80))
        false
        node_b
        81
        (some [])
        alone
      ≡ ((200, some answer), seed))
    × (members zeros node_a seed ≡ 1)
    × (members zeros node_b (join_seeds zeros false node_a (joined answer ∷ []) started) ≡ 1)
    × IsValid zeros node_b seed
    × IsValid zeros node_a (join_seeds zeros false node_a (joined answer ∷ []) started)
members-exchange_example =
    members-exchange zeros (λ b. some (as_join_body zeros started node_a 80)) [] false false node_a
      node_b 80 81 started alone refl
      (λ e. absurd (let f : 97 ≡ 98 = ap first_byte e in omega (arith, f))) started-IsValid
      (new-IsValid zeros node_b 3 tt)

abbrev two_rounds : List (List Reply)
two_rounds = (unreachable ∷ []) ∷ (rejected ∷ []) ∷ []

rounds-wait_example :
    IsValid zeros node_a
      (round zeros zeros false node_a
        (joined from_c ∷ [])
        (rounds zeros zeros false node_a two_rounds (unjoined zeros zeros started tt))).peers
    × (interval_at 2
        ≤ (round zeros zeros false node_a
            (joined from_c ∷ [])
            (rounds zeros zeros false node_a two_rounds (unjoined zeros zeros started tt))).wait)
    × ((round zeros zeros false node_a
          (joined from_c ∷ [])
          (rounds zeros zeros false node_a two_rounds (unjoined zeros zeros started tt))).wait
        < interval_at 2 + 5 * second)
    × (0
        < min
            ((rounds zeros zeros false node_a two_rounds (unjoined zeros zeros started tt)).interval
              / 6)
            (5 * second))
rounds-wait_example =
    rounds-wait zeros zeros false node_a two_rounds (joined from_c ∷ []) started tt started-IsValid
