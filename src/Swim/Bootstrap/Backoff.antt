-- ===== src/Swim/Bootstrap/Backoff.antt =====
-- How long Bootstrap waits between its rounds, and what the rounds leave.
use commute.Prelude.{
  ℕ, zero, suc, ◌+◌, ◌*◌, ◌/◌, ◌^◌, ◌≤◌, ◌<◌, min, Str, List, [], ◌∷◌, Bool, ◌≡◌, ◌∙◌, ap, subst,
  arith, length,
}
use commute.Swim.Types.{Rng}
use commute.Swim.Peers.{Peers}
use commute.Swim.Peers.Invariant.{IsValid, member_join-IsValid}
use commute.Swim.Bootstrap.{
  second, first_interval, longest_interval, Reply, unreachable, rejected, garbled, joined,
  next_interval, join_seeds, Bootstrap, unjoined, round, rounds,
}

-- The interval of the round with this number, the first being 0.
abbrev pub interval_at : ℕ → ℕ
interval_at n = min (2 ^ n * first_interval) longest_interval

interval-next : (n : ℕ) → next_interval (interval_at n) ≡ interval_at (suc n)
interval-next n = let p : 2 ^ suc n ≡ 2 ^ n * 2 = omega arith in ground arith

power_some : (n : ℕ) → 1 ≤ 2 ^ n
power_some zero = omega arith
power_some (suc n) = let p : 2 ^ suc n ≡ 2 ^ n * 2 = omega arith in omega (arith, p, power_some n)

module _ (R B : Rng) (done : Bool) (self : Str) where
  join_seeds-IsValid :
      (replies : List Reply) (p : Peers R)
      → IsValid R self p
      → IsValid R self (join_seeds R done self replies p)
  unfolding join_seeds
  join_seeds-IsValid [] p v = v
  join_seeds-IsValid (joined body ∷ replies) p v =
      join_seeds-IsValid replies _ (member_join-IsValid R self done body p v)
  join_seeds-IsValid (unreachable ∷ replies) p v = join_seeds-IsValid replies p v
  join_seeds-IsValid (rejected ∷ replies) p v = join_seeds-IsValid replies p v
  join_seeds-IsValid (garbled ∷ replies) p v = join_seeds-IsValid replies p v

  -- After `n` rounds.
  record Backed (n : ℕ) (s : Bootstrap R B) : Type 0 where
    valid : IsValid R self s.peers
    interval : s.interval ≡ interval_at n

  round-Backed :
      (n : ℕ) (replies : List Reply) (s : Bootstrap R B)
      → Backed n s
      → Backed (suc n) (round R B done self replies s)
  unfolding round
  round-Backed n replies s b = record {
    valid = join_seeds-IsValid replies s.peers b.valid;
    interval = ap next_interval b.interval ∙ interval-next n;
  }

  rounds-Backed :
      (n : ℕ) (turns : List (List Reply)) (s : Bootstrap R B)
      → Backed n s
      → Backed (n + length turns) (rounds R B done self turns s)
  unfolding rounds
  rounds-Backed n [] s b = subst (λ m. Backed m s) (omega arith) b
  rounds-Backed n (replies ∷ turns) s b =
      subst (λ m. Backed m (rounds R B done self turns (round R B done self replies s)))
        (omega arith)
        (rounds-Backed (suc n) turns (round R B done self replies s) (round-Backed n replies s b))

  -- Bootstrap starts with a valid member list, and the seeds answer in whatever way. After any number `n`
  -- of rounds and one more, the member list is still valid, and the wait is at least 5 · 2^n seconds, or
  -- 300 if that is less, and less than 5 seconds longer; the random number for it is drawn from a range
  -- that is not empty, so that IntN does not panic.
  pub rounds-wait :
      (turns : List (List Reply)) (replies : List Reply) (p : Peers R) (g : B.Gen)
      → IsValid R self p
      → IsValid R self
          (round R B done self replies (rounds R B done self turns (unjoined R B p g))).peers
        × (interval_at (length turns)
            ≤ (round R B done self replies (rounds R B done self turns (unjoined R B p g))).wait)
        × ((round R B done self replies (rounds R B done self turns (unjoined R B p g))).wait
            < interval_at (length turns) + 5 * second)
        × (0 < min ((rounds R B done self turns (unjoined R B p g)).interval / 6) (5 * second))
  unfolding round
  rounds-wait turns replies p g v =
      let s = rounds R B done self turns (unjoined R B p g) in
      let b =
        rounds-Backed 0 turns (unjoined R B p g) (record { valid = v; interval = omega arith }) in
      let i : s.interval ≡ interval_at (length turns) = b.interval ∙ ap interval_at (omega arith) in
      let least : 1 ≤ 2 ^ length turns = power_some (length turns) in
      let range : 0 < min (s.interval / 6) (5 * second) = rw i (omega (arith, least)) in
      let drawn = B.int_n-lt (min (s.interval / 6) (5 * second)) s.rng range in
      (
        (round-Backed (length turns) replies s (record { valid = b.valid; interval = i })).valid,
        omega (arith, i),
        omega (arith, i, drawn),
        range,
      )
