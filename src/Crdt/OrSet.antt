-- ===== src/Crdt/OrSet.antt =====
-- internal/crdt/crdt.go: `ORSet`, the observed-remove set. Each element has a version vector set of
-- markers, true for an add and false for a remove. A nil map reads as an empty one; `none` is a
-- panic of the version vector set.
pub mod Observed
pub mod Writes
pub mod Ready
pub mod Values
use mathlib.Core.Option
use commute.Prelude.{
  str_eq, Str, Map, Option, none, some, List, [], ◌∷◌, Bool, true, false, if◌then◌else◌, lookup,
  insert, range_all, or_else,
}
use commute.Crdt.DvvSet
use commute.Crdt.DvvSet.{DvvSet, Vv}

pub record OrSet : Type 0 where
  pub node_id : Str
  pub state : Map Str (DvvSet Bool)

-- NewORSet
unfoldable pub new : Str → OrSet
new node = record { node_id = node; state = [] }

-- IsZero
unfoldable pub is_zero : OrSet → Bool
is_zero or = elim or.state [ [] ↦ true | _ ∷ _ ↦ false ]

-- CausalContext
unfoldable pub causal_context : OrSet → Str → Vv
unfolding DvvSet.join
causal_context or value = DvvSet.join (or_else (lookup value or.state) [])

contexts_from : Map Str (DvvSet Bool) → Map Str Vv
contexts_from [] = []
contexts_from ((k, v) ∷ m) = (k, DvvSet.join v) ∷ contexts_from m

-- CausalContexts
unfoldable pub causal_contexts : OrSet → Map Str Vv
unfolding contexts_from DvvSet.join
causal_contexts or = contexts_from or.state

-- The loop of Contains over the siblings.
abbrev pub any_add : List Bool → Bool
any_add [] = false
any_add (v ∷ vs) = if v then true else any_add vs

abbrev pub contains_in : Option (DvvSet Bool) → Bool
contains_in none = false
contains_in (some ds) = any_add (DvvSet.values ds)

-- Contains
unfoldable pub contains : OrSet → Str → Bool
unfolding DvvSet.values
contains or value = contains_in (lookup value or.state)

unfoldable pub values_from : OrSet → Map Str (DvvSet Bool) → List Str
values_from or [] = []
values_from or ((value, _) ∷ m) =
    let rest = values_from or m in if contains or value then value ∷ rest else rest

-- Values
unfoldable pub values : OrSet → List Str
unfolding values_from contains
values or = values_from or or.state

-- The delta of one element, without an owner.
abbrev pub only : Str → DvvSet Bool → OrSet
only value ds = record { node_id = []; state = (value, ds) ∷ [] }

-- Add
unfoldable pub add : OrSet → Str → Vv → Option OrSet
unfolding DvvSet.update
add or value vv =
    Option.map (only value) (DvvSet.update (or_else (lookup value or.state) []) or.node_id vv true)

unfoldable pub remove_known : Option (DvvSet Bool) → Str → Str → Vv → Option OrSet
remove_known none node value vv = some (record { node_id = []; state = [] })
remove_known (some ds) node value vv = Option.map (only value) (DvvSet.update ds node vv false)

-- Remove
unfoldable pub remove : OrSet → Str → Vv → Option OrSet
unfolding remove_known DvvSet.update
remove or value vv = remove_known (lookup value or.state) or.node_id value vv

-- An element of the other side is adopted, or synced with this side's.
unfoldable pub merge_in : Option (DvvSet Bool) → DvvSet Bool → Option (DvvSet Bool)
unfolding DvvSet.sync
merge_in none v = some v
merge_in (some local) v = DvvSet.sync local v

-- The loop of Merge.
unfoldable pub merge_from :
    Map Str (DvvSet Bool) → Map Str (DvvSet Bool) → Option (Map Str (DvvSet Bool))
unfolding merge_in
merge_from [] state = some state
merge_from ((k, v) ∷ m) state = elim (merge_in (lookup k state) v) [
  | none ↦ none
  | some ds ↦ merge_from m (insert k ds state)
]

-- Merge
unfoldable pub merge : OrSet → OrSet → Option OrSet
unfolding merge_from
merge or other = Option.map (λ state. record or { state = state }) (merge_from other.state or.state)

is_below_in : DvvSet Bool → Option (DvvSet Bool) → Bool
is_below_in v none = false
is_below_in v (some ds) = DvvSet.is_less_or_equal v ds

-- IsLessOrEqual
unfoldable pub is_less_or_equal : OrSet → OrSet → Bool
unfolding is_below_in DvvSet.is_less_or_equal
is_less_or_equal or other = range_all (λ k v. is_below_in v (lookup k other.state)) or.state
