-- ===== src/Server/Counters.antt =====
-- The counter handlers against the value that they keep.
use commute.Prelude.{
  str_eq, ℕ, ◌+◌, ◌<◌, Str, some, ◌∷◌, true, false, ◌≡◌, refl, ◌∙◌, arith, ltb, nat_beq,
  str_beq_iff, pos, ◌+ℤ◌, i64,
}
use commute.Crdt.GCounter.{entries}
use commute.Crdt.GCounter.Total.{total}
use commute.Crdt.PnCounter
use commute.Store
use commute.Store.{Store}
use commute.Store.Reads.{counter_of, get_counter-increment_counter}
use commute.Server.{Codec, Server, get_counters, post_counters, count, status_ok}

module _ (C : Codec) where
  post-increments :
      (c : ℕ) (key b : Str) (n : ℕ) (srv : Server)
      → C.counter_request b ≡ some (record { increment = n; decrement = 0 })
      → 0 < n
      → post_counters C (c ∷ key) (some b) srv
        ≡ (status_ok, record srv { store = Store.increment_counter (c ∷ key) n srv.store })
  unfolding post_counters count
  post-increments c key b n srv e h =
      let t : ltb 0 n ≡ true = ground arith in
      let z : nat_beq n 0 ≡ false = ground arith in rw (e, post_counters, t, z)

  -- A POST of a positive increment to a counter is answered 200, and a GET of the counter is then
  -- answered 200 with the old value plus the increment, 0 being the old value of a new counter,
  -- while the counter's totals stay below 2^63.
  pub get_counters-post_counters :
      (c : ℕ) (key b : Str) (n : ℕ) (srv : Server)
      → C.counter_request b ≡ some (record { increment = n; decrement = 0 })
      → 0 < n
      → total (entries (counter_of srv.store (c ∷ key)).inc) + n < i64
      → total (entries (counter_of srv.store (c ∷ key)).dec) < i64
      → ((post_counters C (c ∷ key) (some b) srv).0 ≡ status_ok)
        × (get_counters C (c ∷ key) (post_counters C (c ∷ key) (some b) srv).1
            ≡ (status_ok, some (PnCounter.value (counter_of srv.store (c ∷ key)) +ℤ pos n)))
  unfolding get_counters
  get_counters-post_counters c key b n srv e h hi hd =
      let value : Store.get_counter (c ∷ key) (Store.increment_counter (c ∷ key) n srv.store)
          ≡ some (PnCounter.value (counter_of srv.store (c ∷ key)) +ℤ pos n) =
        get_counter-increment_counter (c ∷ key) n srv.store (c ∷ key) hi hd
        ∙ rw (str_beq_iff (c ∷ key) (c ∷ key)).1 refl in
      rw (post-increments c key b n srv e h) (refl, rw (value, get_counters))
