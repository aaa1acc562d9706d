-- ===== src/Crdt/GCounter.antt =====
-- internal/crdt/crdt.go: `GCounter`, the grow-only counter. `counters` is `none` for Go's nil map.
-- Counts are uint64: `Increment` and `Value` wrap.
pub mod Order
pub mod Total
use commute.Prelude.{
  str_eq, ℕ, ◌+◌, ◌%◌, max, Str, Map, Option, none, some, [], ◌∷◌, Bool, true, false, lookup,
  merge_with, range_all, Distinct, or_else, leb, u64,
}

pub record GCounter : Type 0 where
  pub node_id : Str
  pub counters : Option (Map Str ℕ)

-- NewGCounter
unfoldable pub new : Str → GCounter
new node = record { node_id = node; counters = some [] }

-- A nil map ranges and reads as an empty one.
abbrev pub entries : GCounter → Map Str ℕ
entries g = or_else g.counters []

-- g.counters[id]
unfoldable pub at : GCounter → Str → ℕ
at g id = or_else (lookup id (entries g)) 0

sum_from : ℕ → Map Str ℕ → ℕ
sum_from sum [] = sum
sum_from sum ((id, v) ∷ m) = sum_from ((sum + v) % u64) m

-- Value
unfoldable pub value : GCounter → ℕ
unfolding sum_from
value g = sum_from 0 (entries g)

-- IsZero: `len(g.counters) == 0`
unfoldable pub is_zero : GCounter → Bool
is_zero g = elim (entries g) [ [] ↦ true | _ ∷ _ ↦ false ]

-- Increment: the delta, whose owner is the empty string.
unfoldable pub increment : GCounter → ℕ → GCounter
increment g n = record {
  node_id = [];
  counters = some ((g.node_id, (at g g.node_id + n) % u64) ∷ []);
}

-- g.counters[id] = max(g.counters[id], v)
abbrev pub keep_max : Option ℕ → ℕ → ℕ
keep_max old v = max (or_else old 0) v

-- Merge
unfoldable pub merge : GCounter → GCounter → GCounter
merge g other = record g { counters = some (merge_with keep_max (entries g) (entries other)) }

-- IsLessOrEqual
unfoldable pub is_less_or_equal : GCounter → GCounter → Bool
is_less_or_equal g other = range_all (λ id v. leb v (at other id)) (entries g)

-- The keys of a Go map are distinct.
abbrev pub IsValid : GCounter → Type 0
IsValid g = Distinct (entries g)
