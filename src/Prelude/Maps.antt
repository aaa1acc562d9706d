-- ===== src/Prelude/Maps.antt =====
-- Go maps as association lists. A `range` loop goes through the entries in the list's order; the
-- laws are stated for every list with distinct keys, so for every order that Go may choose.
use mathlib.Core.Path.{◌≡◌, refl}
use mathlib.Core.Logic.{inl, inr}
use mathlib.Core.Bool.{Bool, true, ◌&&◌}
use mathlib.Core.Option.{Option, none, some}
use mathlib.Core.List.{List, [], ◌∷◌}
use native.Mathlib.Omega.{arith}
use commute.Prelude.Base.{Key, ◌==◌, if◌then◌else◌, Bool-cases}

abbrev pub Map : Type 0 → Type 0 → Type 0
Map K V = List (K × V)

-- What a merge loop leaves at a key: each key of the other map is visited once.
abbrev pub merged {ℓ} : {V : Type ℓ} → (Option V → V → V) → Option V → Option V → Option V
merged f a none = a
merged f a (some v) = some (f a v)

module _ {K V : Type 0} ⦃e : Key K⦄ where
  -- v, ok := m[k]
  unfoldable pub lookup : K → Map K V → Option V
  lookup key [] = none
  lookup key ((i, old) ∷ rest) = if i == key then some old else lookup key rest

  -- m[k] = v
  unfoldable pub insert : K → V → Map K V → Map K V
  insert key new [] = (key, new) ∷ []
  insert key new ((i, old) ∷ rest) =
      if i == key then (key, new) ∷ rest else (i, old) ∷ insert key new rest

  -- delete(m, k)
  unfoldable pub erase : K → Map K V → Map K V
  erase k [] = []
  erase k ((j, w) ∷ m) = let rest = erase k m in if j == k then rest else (j, w) ∷ rest

  -- for k, v := range o { m[k] = f(m[k], v) }
  unfoldable pub merge_with : (Option V → V → V) → Map K V → Map K V → Map K V
  merge_with f m [] = m
  merge_with f m ((k, v) ∷ o) = merge_with f (insert k (f (lookup k m) v) m) o

  -- for k, v := range m { if !p(k, v) { return false } }; return true
  unfoldable pub range_all : (K → V → Bool) → Map K V → Bool
  range_all p [] = true
  range_all p ((k, v) ∷ m) = p k v && range_all p m

  abbrev pub Distinct : Map K V → Type 0
  Distinct [] = Unit
  Distinct ((k, v) ∷ m) = (lookup k m ≡ none) × Distinct m

  pub lookup-insert :
      (key j : K) (new : V) (m : Map K V)
      → lookup j (insert key new m) ≡ (if key == j then some new else lookup j m)
  unfolding lookup insert
  lookup-insert key j new [] = refl
  lookup-insert key j new ((i, old) ∷ rest) =
      ground
        (arith, lookup-insert key j new rest, e.same_iff i j, e.same_iff i key, e.same_iff key j)

  pub lookup-erase :
      (k j : K) (m : Map K V) → lookup j (erase k m) ≡ (if k == j then none else lookup j m)
  unfolding lookup erase
  lookup-erase k j [] = ground arith
  lookup-erase k j ((i, w) ∷ m) =
      ground (arith, e.same_iff k j, e.same_iff i k, e.same_iff i j, lookup-erase k j m)

  pub insert-Distinct : (k : K) (v : V) (m : Map K V) → Distinct m → Distinct (insert k v m)
  unfolding lookup insert
  insert-Distinct k v [] d = ground arith
  insert-Distinct k v ((i, w) ∷ m) (h, d) = elim (Bool-cases (i == k)) [
    | inl q ↦ rw (q, ← (e.same_iff i k).0 q) (h, d)
    | inr q ↦ rw q (
      ground (arith, lookup-insert k i v m, e.same_iff i k, e.same_iff k i),
      insert-Distinct k v m d,
    )
  ]

  pub erase-Distinct : (k : K) (m : Map K V) → Distinct m → Distinct (erase k m)
  unfolding lookup erase
  erase-Distinct k [] d = ground arith
  erase-Distinct k ((i, w) ∷ m) (h, d) = elim (Bool-cases (i == k)) [
    | inl q ↦ rw q (erase-Distinct k m d)
    | inr q ↦ rw q (ground (arith, lookup-erase k i m), erase-Distinct k m d)
  ]

  pub merge_with-Distinct :
      (f : Option V → V → V) (m o : Map K V) → Distinct m → Distinct (merge_with f m o)
  unfolding merge_with
  merge_with-Distinct f m [] d = d
  merge_with-Distinct f m ((k, v) ∷ o) d =
      merge_with-Distinct f (insert k (f (lookup k m) v) m) o (insert-Distinct k _ m d)

  pub lookup-merge_with :
      (f : Option V → V → V) (m o : Map K V) (j : K)
      → Distinct o
      → lookup j (merge_with f m o) ≡ merged f (lookup j m) (lookup j o)
  unfolding lookup merge_with
  lookup-merge_with f m [] j d = refl
  lookup-merge_with f m ((k, v) ∷ o) j (h, d) =
      rw
        (
          lookup-merge_with f (insert k (f (lookup k m) v) m) o j d,
          lookup-insert k j (f (lookup k m) v) m,
        )
        (elim (Bool-cases (k == j)) [ inl q ↦ rw (q, ← (e.same_iff k j).0 q, h) | inr q ↦ rw q ])

  pub at-range_all :
      (p : K → V → Bool) (m : Map K V) (k : K) (v : V)
      → range_all p m ≡ true
      → lookup k m ≡ some v
      → p k v ≡ true
  unfolding lookup range_all
  at-range_all p [] k v h q = ground arith
  at-range_all p ((i, w) ∷ m) k v h q = elim (Bool-cases (i == k)) [
    | inl s ↦ rw (← (e.same_iff i k).0 s) (ground (arith, e.same_iff i k))
    | inr s ↦ ground (arith, at-range_all p m k v)
  ]

  -- With distinct keys, what stands further down is not hidden by the first entry.
  pub lookup_tail :
      (i : K) (w : V) (m : Map K V) (k : K) (v : V)
      → Distinct ((i, w) ∷ m)
      → lookup k m ≡ some v
      → lookup k ((i, w) ∷ m) ≡ some v
  unfolding lookup
  lookup_tail i w m k v (n, d) q = elim (Bool-cases (i == k)) [
    | inl s ↦ let q' : lookup i m ≡ some v = rw ((e.same_iff i k).0 s) q in cc
    | inr s ↦ rw s q
  ]

  pub lookup_head : (i : K) (w : V) (m : Map K V) → lookup i ((i, w) ∷ m) ≡ some w
  unfolding lookup
  lookup_head i w m = rw (e.same_iff i i).1 refl

  pub range_all-of_at :
      (p : K → V → Bool) (m : Map K V)
      → Distinct m
      → ((k : K) (v : V) → lookup k m ≡ some v → p k v ≡ true)
      → range_all p m ≡ true
  unfolding range_all
  range_all-of_at p [] d h = refl
  range_all-of_at p ((i, w) ∷ m) d h = rw (
    h i w (lookup_head i w m),
    range_all-of_at p m d.1 (λ k v q. h k v (lookup_tail i w m k v d q)),
  )

  -- for k, v := range m { m[k] = f(k, v) }
  unfoldable pub map_values : (K → V → V) → Map K V → Map K V
  map_values f [] = []
  map_values f ((k, v) ∷ m) = (k, f k v) ∷ map_values f m

  abbrev cons_both : K → Option V → Option (Map K V) → Option (Map K V)
  cons_both k none rest = none
  cons_both k (some w) none = none
  cons_both k (some w) (some o) = some ((k, w) ∷ o)

  -- The same where `f` may panic, which is `none`.
  unfoldable pub try_map_values : (K → V → Option V) → Map K V → Option (Map K V)
  try_map_values f [] = some []
  try_map_values f ((k, v) ∷ m) = cons_both k (f k v) (try_map_values f m)

  abbrev pub mapped : (K → V → V) → K → Option V → Option V
  mapped f k none = none
  mapped f k (some v) = some (f k v)

  pub lookup-map_values :
      (f : K → V → V) (m : Map K V) (k : K) → lookup k (map_values f m) ≡ mapped f k (lookup k m)
  unfolding lookup map_values
  lookup-map_values f [] k = refl
  lookup-map_values f ((i, w) ∷ m) k = elim (Bool-cases (i == k)) [
    | inl q ↦ rw (q, (e.same_iff i k).0 q)
    | inr q ↦ rw q (lookup-map_values f m k)
  ]

  pub map_values-Distinct : (f : K → V → V) (m : Map K V) → Distinct m → Distinct (map_values f m)
  unfolding map_values
  map_values-Distinct f [] d = d
  map_values-Distinct f ((i, w) ∷ m) (n, d) =
      (rw (lookup-map_values f m i, n), map_values-Distinct f m d)

  pub try_map_values-map_values :
      (f : K → V → Option V) (g : K → V → V) (m : Map K V)
      → Distinct m
      → ((k : K) (v : V) → lookup k m ≡ some v → f k v ≡ some (g k v))
      → try_map_values f m ≡ some (map_values g m)
  unfolding try_map_values map_values
  try_map_values-map_values f g [] d h = refl
  try_map_values-map_values f g ((i, w) ∷ m) d h = rw (
    h i w (lookup_head i w m),
    try_map_values-map_values f g m d.1 (λ k v q. h k v (lookup_tail i w m k v d q)),
  )
