-- ===== src/Store/Reads.antt =====
-- What the store's reads give after its writes.
use mathlib.Core.Option
use commute.Prelude.{
  str_eq, nat_eq, ℕ, ◌+◌, ◌<◌, Str, some, ◌≡◌, inl, inr, ◌∙◌, ap, if◌then◌else◌, str_beq,
  Bool-cases, lookup, lookup-insert, pos, ◌+ℤ◌, ◌-ℤ◌, i64,
}
use commute.Crdt.Replicated.{Replicated}
use commute.Crdt.GCounter.{entries}
use commute.Crdt.GCounter.Total.{total}
use commute.Crdt.PnCounter
use commute.Crdt.PnCounter.{PnCounter}
use commute.Crdt.PnCounter.Order.{counters}
use commute.Crdt.PnCounter.Total
use commute.Crdt.LwwRegister
use commute.Crdt.LwwRegister.Order
use commute.Crdt.LwwRegister.Order.{registers}
use commute.Store.{
  Store, increment_counter, decrement_counter, get_counter, set_register, get_register,
}
use commute.Store.Part.{Part, current, write, absorb}

map-write :
    {S B : Type 0} (R : Replicated S) (node key j : Str) (f : S → S) (read : S → B) (p : Part S)
    → Option.map read (lookup j (write R node key f p).live) ≡ (
        if str_beq key j
        then some (read (R.merge (current R node key p) (f (current R node key p))))
        else Option.map read (lookup j p.live))
unfolding write absorb
map-write R node key j f read p =
    ap (Option.map read) (lookup-insert key j _ p.live)
    ∙ elim (Bool-cases (str_beq key j)) [ inl q ↦ rw q | inr q ↦ rw q ]

-- The counter that a write of this node goes to.
abbrev pub counter_of : Store → Str → PnCounter
counter_of st key = current counters st.node_id key st.counters

-- After IncrementCounter, GetCounter of the key gives its value, 0 for a new key, plus the amount,
-- and every other key is as before, while the key's totals stay below 2^63.
pub get_counter-increment_counter :
    (key : Str) (n : ℕ) (st : Store) (j : Str)
    → total (entries (counter_of st key).inc) + n < i64
    → total (entries (counter_of st key).dec) < i64
    → get_counter j (increment_counter key n st) ≡ (
        if str_beq key j
        then some (PnCounter.value (counter_of st key) +ℤ pos n)
        else get_counter j st)
unfolding get_counter increment_counter
get_counter-increment_counter key n st j hi hd =
    map-write counters st.node_id key j (λ c. PnCounter.increment c n) PnCounter.value st.counters
    ∙ ap
        (λ v.
          if str_beq key j then some v else Option.map PnCounter.value (lookup j st.counters.live))
        (Total.value-merge-increment (counter_of st key) n hi hd)

-- After DecrementCounter, GetCounter of the key gives its value, 0 for a new key, less the amount,
-- and every other key is as before, while the key's totals stay below 2^63.
get_counter-decrement_counter :
    (key : Str) (n : ℕ) (st : Store) (j : Str)
    → total (entries (counter_of st key).inc) < i64
    → total (entries (counter_of st key).dec) + n < i64
    → get_counter j (decrement_counter key n st) ≡ (
        if str_beq key j
        then some (PnCounter.value (counter_of st key) -ℤ pos n)
        else get_counter j st)
unfolding get_counter decrement_counter
get_counter-decrement_counter key n st j hi hd =
    map-write counters st.node_id key j (λ c. PnCounter.decrement c n) PnCounter.value st.counters
    ∙ ap
        (λ v.
          if str_beq key j then some v else Option.map PnCounter.value (lookup j st.counters.live))
        (Total.value-merge-decrement (counter_of st key) n hi hd)

-- After SetRegister at a clock reading later than the key's timestamp, GetRegister of the key gives
-- the new value, and every other key is as before.
pub get_register-set_register :
    (key : Str) (now : ℕ) (v : Str) (st : Store) (j : Str)
    → (current registers st.node_id key st.registers).entry.timestamp < now
    → get_register j (set_register key now v st)
      ≡ (if str_beq key j then some v else get_register j st)
unfolding get_register set_register
get_register-set_register key now v st j h =
    map-write registers st.node_id key j (λ r. LwwRegister.set r now v) LwwRegister.value
      st.registers
    ∙ ap
        (λ w.
          if str_beq key j
          then some w
          else Option.map LwwRegister.value (lookup j st.registers.live))
        (Order.value-merge-set (current registers st.node_id key st.registers) now v h)
