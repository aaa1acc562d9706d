-- ===== src/Crdt/PnCounter.antt =====
-- internal/crdt/crdt.go: `PNCounter`, a pair of grow-only counters.
pub mod Order
pub mod Total
use commute.Prelude.{str_eq, ℕ, ◌+◌, ◌-◌, ◌%◌, Str, none, [], Bool, ◌&&◌, ℤ, signed64, u64}
use commute.Crdt.GCounter
use commute.Crdt.GCounter.{GCounter}

pub record PnCounter : Type 0 where
  pub inc : GCounter
  pub dec : GCounter

-- The zero value of a GCounter, whose map is nil.
abbrev pub zero_counter : GCounter
zero_counter = record { node_id = []; counters = none }

-- NewPNCounter
unfoldable pub new : Str → PnCounter
unfolding GCounter.new
new node = record { inc = GCounter.new node; dec = GCounter.new node }

-- Value: `int64(inc) - int64(dec)`, which wraps as the difference of the bit patterns does.
unfoldable pub value : PnCounter → ℤ
value pn = signed64 ((GCounter.value pn.inc + u64 - GCounter.value pn.dec) % u64)

-- Increment
unfoldable pub increment : PnCounter → ℕ → PnCounter
increment pn n = record { inc = GCounter.increment pn.inc n; dec = zero_counter }

-- Decrement
unfoldable pub decrement : PnCounter → ℕ → PnCounter
decrement pn n = record { inc = zero_counter; dec = GCounter.increment pn.dec n }

-- Merge
unfoldable pub merge : PnCounter → PnCounter → PnCounter
merge pn other = record {
  inc = GCounter.merge pn.inc other.inc;
  dec = GCounter.merge pn.dec other.dec;
}

-- IsLessOrEqual
unfoldable pub is_less_or_equal : PnCounter → PnCounter → Bool
is_less_or_equal pn other =
    GCounter.is_less_or_equal pn.inc other.inc && GCounter.is_less_or_equal pn.dec other.dec

pub record IsValid (pn : PnCounter) : Type 0 where
  pub inc : GCounter.IsValid pn.inc
  pub dec : GCounter.IsValid pn.dec
