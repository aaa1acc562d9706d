-- ===== src/Crdt/GCounter/Total.antt =====
-- `Value` of a GCounter.
use commute.Prelude.{
  str_eq, ℕ, ◌+◌, ◌%◌, ◌≤◌, ◌<◌, max, Str, Map, ◌≡◌, [], ◌∷◌, arith, lookup, insert, or_else, u64,
  merge_with,
}
use commute.Crdt.GCounter.{GCounter, entries, at, sum_from, value, increment, merge}

-- The sum of all counts, unbounded.
abbrev pub total : Map Str ℕ → ℕ
total [] = 0
total ((id, v) ∷ m) = v + total m

sum_from-total : (sum : ℕ) (m : Map Str ℕ) → sum < u64 → sum_from sum m ≡ (sum + total m) % u64
unfolding sum_from
sum_from-total sum [] h = omega arith
sum_from-total sum ((id, v) ∷ m) h = omega (arith, sum_from-total ((sum + v) % u64) m (omega arith))

-- `Value` is the sum over all nodes, modulo 2^64.
pub value-total : (g : GCounter) → value g ≡ total (entries g) % u64
unfolding value
value-total g = omega (arith, sum_from-total 0 (entries g) (omega arith))

total-insert :
    (id : Str) (v : ℕ) (m : Map Str ℕ)
    → total (insert id v m) + or_else (lookup id m) 0 ≡ total m + v
unfolding lookup insert
total-insert id v [] = omega arith
total-insert id v ((j, w) ∷ m) = ground (arith, total-insert id v m)

at-le-total : (id : Str) (m : Map Str ℕ) → or_else (lookup id m) 0 ≤ total m
unfolding lookup
at-le-total id [] = omega arith
at-le-total id ((j, w) ∷ m) = ground (arith, at-le-total id m)

merge-increment-total :
    (g : GCounter) (n : ℕ)
    → at g g.node_id + n < u64
    → total (entries (merge g (increment g n))) ≡ total (entries g) + n
unfolding at merge increment merge_with
merge-increment-total g n h =
    omega (
      arith,
      total-insert g.node_id (max (at g g.node_id) ((at g g.node_id + n) % u64)) (entries g),
    )

pub total-merge-increment :
    (g : GCounter) (n : ℕ)
    → total (entries g) + n < u64
    → total (entries (merge g (increment g n))) ≡ total (entries g) + n
unfolding at
total-merge-increment g n h =
    merge-increment-total g n (omega (arith, at-le-total g.node_id (entries g)))

-- Merging the delta of `Increment(n)` into the counter raises its value by n modulo 2^64, if this
-- node's own count stays below 2^64.
pub value-merge-increment :
    (g : GCounter) (n : ℕ)
    → at g g.node_id + n < u64
    → value (merge g (increment g n)) ≡ (value g + n) % u64
value-merge-increment g n h =
    omega (arith, value-total g, value-total (merge g (increment g n)), merge-increment-total g n h)
