-- ===== src/Swim/Bootstrap.antt =====
-- internal/swim/swim.go, Bootstrap and JoinHandler: how nodes come to know each other. JSON and HTTP are
-- left out: a request's body is none if it is missing or cannot be read, `decode` is json.Unmarshal, and
-- what a seed answers is a `Reply`. Durations are in nanoseconds; `B` gives bootstrapRng's numbers.
pub mod Backoff
pub mod Exchange
use commute.Prelude.{
  ℕ, ◌+◌, ◌*◌, ◌/◌, min, Str, Option, none, some, List, [], ◌∷◌, Bool, if◌then◌else◌, ltb,
}
use commute.Swim.Types.{JoinBody, Rng}
use commute.Swim.Peers.{Peers, as_join_body, member_join}

abbrev pub second : ℕ
second = 1000000000

-- The first interval.
abbrev pub first_interval : ℕ
first_interval = 5 * second

abbrev pub longest_interval : ℕ
longest_interval = 300 * second

-- A seed that cannot be reached, that does not answer 200, whose answer cannot be decoded, or that
-- answers with its members.
pub data Reply : Type 0 where
  unreachable rejected garbled : Reply
  joined : JoinBody → Reply

-- The doubling at the end of a round.
abbrev pub next_interval : ℕ → ℕ
next_interval interval =
    if ltb interval longest_interval then min (interval * 2) longest_interval else interval

module _ (R : Rng) where
  -- The loop over the seeds.
  unfoldable pub join_seeds : Bool → Str → List Reply → Peers R → Peers R
  unfolding member_join
  join_seeds done self [] p = p
  join_seeds done self (joined body ∷ replies) p =
      join_seeds done self replies (member_join R done self body p)
  join_seeds done self (unreachable ∷ replies) p = join_seeds done self replies p
  join_seeds done self (rejected ∷ replies) p = join_seeds done self replies p
  join_seeds done self (garbled ∷ replies) p = join_seeds done self replies p

  -- JoinHandler: the status, and the members in the answer.
  unfoldable pub join_handler :
      (Str → Option JoinBody)
      → Bool
      → Str
      → ℕ
      → Option Str
      → Peers R
      → (ℕ × Option JoinBody) × Peers R
  unfolding member_join as_join_body
  join_handler decode done self app_port none p = ((400, none), p)
  join_handler decode done self app_port (some b) p = elim (decode b) [
    | none ↦ ((400, none), p)
    | some req ↦
        let q = member_join R done self req p in ((200, some (as_join_body R q self app_port)), q)
  ]

  module _ (B : Rng) where
    -- What the loop of Bootstrap keeps; `wait` is the time until the next round.
    pub record Bootstrap : Type 0 where
      pub peers : Peers R
      pub interval : ℕ
      pub wait : ℕ
      pub rng : B.Gen

    abbrev pub jitter : ℕ → B.Gen → ℕ × B.Gen
    jitter interval g = B.int_n (min (interval / 6) (5 * second)) g

    -- Before the loop.
    abbrev pub unjoined : Peers R → B.Gen → Bootstrap
    unjoined p g = record { peers = p; interval = first_interval; wait = 0; rng = g }

    -- One round, in which the seeds answer so.
    unfoldable pub round : Bool → Str → List Reply → Bootstrap → Bootstrap
    unfolding join_seeds
    round done self replies s =
        let (j, g) = jitter s.interval s.rng in
        record {
          peers = join_seeds done self replies s.peers;
          interval = next_interval s.interval;
          wait = s.interval + j;
          rng = g;
        }

    unfoldable pub rounds : Bool → Str → List (List Reply) → Bootstrap → Bootstrap
    unfolding round
    rounds done self [] s = s
    rounds done self (replies ∷ rest) s = rounds done self rest (round done self replies s)
