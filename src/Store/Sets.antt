-- ===== src/Store/Sets.antt =====
-- internal/server/store.go: the sets. They keep the four fields of a `Part`, but their operations can
-- panic, in the version vector sets, so that each of them gives an option.
pub mod Writes
use mathlib.Core.Option
use commute.Prelude.{
  ◌>>=◌, str_eq, nat_eq, ℕ, zero, suc, ◌+◌, ◌-◌, ◌%◌, Str, Map, Option, none, some, List, [], ◌∷◌,
  Bool, false, lookup, insert, or_else, if◌then◌else◌, ltb, nat_beq, u64,
}
use commute.Crdt.DvvSet.{Vv}
use commute.Crdt.OrSet
use commute.Crdt.OrSet.{OrSet}
use commute.Store.Part.{Part, acked}

-- st.sets[key], a new set of this node if there is none.
abbrev pub current : Str → Str → Part OrSet → OrSet
current node key p = or_else (lookup key p.live) (OrSet.new node)

-- Merges `d` into the set at the key and logs it as the delta of the next sequence number.
unfoldable pub absorb : Str → Str → OrSet → Part OrSet → Option (Part OrSet)
unfolding OrSet.merge OrSet.new
absorb node key d p = do
  set ← OrSet.merge (current node key p) d
  some (record p {
    live = insert key set p.live;
    deltas = insert p.seq ((key, d) ∷ []) p.deltas;
    seq = (p.seq + 1) % u64;
  })

unfoldable pub get_in : Option OrSet → Option (List Str × Map Str Vv)
unfolding OrSet.values OrSet.causal_contexts
get_in none = none
get_in (some set) = some (OrSet.values set, OrSet.causal_contexts set)

-- GetSet
unfoldable pub get_set : Str → Part OrSet → Option (List Str × Map Str Vv)
unfolding get_in
get_set key p = get_in (lookup key p.live)

-- AddSet
unfoldable pub add_set : Str → Str → Str → Vv → Part OrSet → Option (Part OrSet)
unfolding absorb OrSet.add OrSet.new
add_set node key value vv p = do d ← OrSet.add (current node key p) value vv; absorb node key d p

unfoldable pub remove_in : Option OrSet → Str → Str → Str → Vv → Part OrSet → Option (Part OrSet)
unfolding absorb OrSet.remove OrSet.is_zero
remove_in none node key value vv p = some p
remove_in (some set) node key value vv p = do
  d ← OrSet.remove set value vv
  if OrSet.is_zero d then some p else absorb node key d p

-- RemoveSet
unfoldable pub remove_set : Str → Str → Str → Vv → Part OrSet → Option (Part OrSet)
unfolding remove_in
remove_set node key value vv p = remove_in (lookup key p.live) node key value vv p

is_known : Option OrSet → OrSet → Bool
unfolding OrSet.is_less_or_equal
is_known none incoming = false
is_known (some local) incoming = OrSet.is_less_or_equal incoming local

-- The loop of Merge over the sets.
unfoldable pub receive : Str → Map Str OrSet → Part OrSet → Option (Part OrSet)
unfolding absorb is_known
receive node [] p = some p
receive node ((k, incoming) ∷ msg) p =
    (if is_known (lookup k p.live) incoming then some p else absorb node k incoming p)
    >>= receive node msg

-- `sets[k] = v.Clone()` or `local.Merge(&v)`
abbrev pub collect : Option OrSet → OrSet → Option OrSet
collect none v = some v
collect (some local) v = OrSet.merge local v

-- for k, v := range st.deltaSets[i] { … }
unfoldable pub collect_all : Map Str OrSet → Map Str OrSet → Option (Map Str OrSet)
unfolding OrSet.merge
collect_all [] msg = some msg
collect_all ((k, v) ∷ d) msg = do set ← collect (lookup k msg) v; collect_all d (insert k set msg)

-- for i := from; i < from + rounds; i++ { … }
unfoldable pub interval_from :
    ℕ → ℕ → Map ℕ (Map Str OrSet) → Map Str OrSet → Option (Map Str OrSet)
unfolding collect_all
interval_from zero i deltas msg = some msg
interval_from (suc rounds) i deltas msg = do
  msg' ← collect_all (or_else (lookup i deltas) []) msg
  interval_from rounds (i + 1) deltas msg'

-- The sets' share of Delta: the outer option is a panic, the inner one is nothing to send.
unfoldable pub delta : Str → Part OrSet → Option (Option (ℕ × Map Str OrSet))
unfolding interval_from
delta peer p =
    if nat_beq (acked p peer) 0
    then some (some (p.seq, p.live))
    else if ltb (acked p peer) p.seq
    then Option.map (λ sets. some (p.seq, sets))
        (interval_from (p.seq - acked p peer) (acked p peer) p.deltas [])
    else some none
