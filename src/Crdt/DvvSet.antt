-- ===== src/Crdt/DvvSet.antt =====
-- internal/crdt/dvvset.go: the dotted version vector set. Counters are uint64 and Go's `int` has 64
-- bits: a slice bound that is negative as an int is a panic, `none`.
pub mod Entry
pub mod Update
pub mod Grows
pub mod Sync
pub mod Siblings
pub mod Absorb
use mathlib.Core.Option
use commute.Prelude.{
  str_eq, ℕ, ◌+◌, ◌-◌, ◌%◌, ◌<◌, ◌≤◌, min, max, Str, Map, Option, none, some, List, [], ◌∷◌, ◌++◌,
  Bool, ◌≡◌, if◌then◌else◌, ltb, leb, str_beq, lookup, insert, merge_with, range_all, map_values,
  try_map_values, Distinct, or_else, length, take, u64, i64,
}

-- dvvEntry
pub record DvvEntry (T : Type 0) : Type 0 where
  pub counter : ℕ
  pub values : List T

-- DVVSet: the map `state`.
abbrev pub DvvSet : Type 0 → Type 0
DvvSet T = Map Str (DvvEntry T)

abbrev pub Vv : Type 0
Vv = Map Str ℕ

-- VV.get
abbrev pub get : Vv → Str → ℕ
get vv id = or_else (lookup id vv) 0

-- The entry that a missing id reads as.
abbrev pub zero_entry : {T : Type 0} → DvvEntry T
zero_entry = record { counter = 0; values = [] }

module _ {T : Type 0} where
  -- Values
  unfoldable pub values : DvvSet T → List T
  values [] = []
  values ((id, e) ∷ ds) = e.values ++ values ds

  -- Join
  unfoldable pub join : DvvSet T → Vv
  join [] = []
  join ((id, e) ∷ ds) = (id, e.counter) ∷ join ds

  -- l[0:min(int(n), len(l))], where the sum that `n` stands for wraps.
  unfoldable pub prefix : ℕ → List T → Option (List T)
  prefix n l = if ltb (n % u64) i64 then some (take (min (n % u64) (length l)) l) else none

  abbrev pub with_values : DvvEntry T → List T → DvvEntry T
  with_values e l = record e { values = l }

  discard_known : DvvEntry T → Option ℕ → Option (DvvEntry T)
  discard_known e none = some e
  discard_known e (some c) =
      if ltb c e.counter
      then Option.map (with_values e) (prefix (e.counter - c) e.values)
      else some (with_values e [])

  -- discard
  unfoldable pub discard : DvvSet T → Vv → Option (DvvSet T)
  unfolding discard_known
  discard ds vv = try_map_values (λ id e. discard_known e (lookup id vv)) ds

  pub new_dot : Option (DvvEntry T) → T → DvvEntry T
  new_dot none v = record { counter = 1; values = v ∷ [] }
  new_dot (some e) v = record { counter = (e.counter + 1) % u64; values = v ∷ e.values }

  pub bump : Str → Vv → Str → DvvEntry T → DvvEntry T
  bump node vv id e =
      if str_beq id node then e else record e { counter = max e.counter (get vv id) }

  -- event
  unfoldable pub event : DvvSet T → Str → Vv → T → DvvSet T
  unfolding new_dot bump
  event ds node vv v = map_values (bump node vv) (insert node (new_dot (lookup node ds) v) ds)

  -- Update
  unfoldable pub update : DvvSet T → Str → Vv → T → Option (DvvSet T)
  unfolding discard event
  update ds node vv v = Option.map (λ kept. event kept node vv v) (discard ds vv)

  -- The two branches of Sync for an id on both sides.
  unfoldable pub sync_entry : DvvEntry T → DvvEntry T → Option (DvvEntry T)
  sync_entry e o =
      if leb o.counter e.counter
      then Option.map (with_values e) (prefix (e.counter - o.counter + length o.values) e.values)
      else Option.map (with_values o) (prefix (o.counter - e.counter + length e.values) o.values)

  sync_both : DvvSet T → Str → Option (DvvEntry T) → Option (DvvEntry T) → Option (DvvSet T)
  sync_both ds id none o = some (insert id (or_else o zero_entry) ds)
  sync_both ds id (some e) none = some ds
  sync_both ds id (some e) (some o) = Option.map (λ r. insert id r ds) (sync_entry e o)

  -- The loop of Sync over the ids.
  unfoldable pub sync_loop : Map Str Unit → DvvSet T → DvvSet T → Option (DvvSet T)
  unfolding sync_both
  sync_loop [] other ds = some ds
  sync_loop ((id, _) ∷ ids) other ds = elim (sync_both ds id (lookup id ds) (lookup id other)) [
    | none ↦ none
    | some ds' ↦ sync_loop ids other ds'
  ]

  unfoldable pub ids_of : DvvSet T → Map Str Unit
  ids_of [] = []
  ids_of ((id, e) ∷ ds) = (id, tt) ∷ ids_of ds

  -- Sync
  unfoldable pub sync : DvvSet T → DvvSet T → Option (DvvSet T)
  unfolding sync_loop ids_of
  sync ds other = sync_loop (merge_with (λ _ v. v) (ids_of ds) (ids_of other)) other ds

  -- IsLessOrEqual
  unfoldable pub is_less_or_equal : DvvSet T → DvvSet T → Bool
  is_less_or_equal ds other =
      range_all (λ id e. leb e.counter (or_else (lookup id other) zero_entry).counter) ds

  -- A sibling for each of an entry's latest writes at most, and counters that are positive ints.
  pub record IsEntry (e : DvvEntry T) : Type 0 where
    pub few : length e.values ≤ e.counter
    pub small : e.counter < i64

  pub record IsValid (ds : DvvSet T) : Type 0 where
    pub distinct : Distinct ds
    pub entries : (id : Str) (e : DvvEntry T) → lookup id ds ≡ some e → IsEntry e
