-- ===== src/Prelude/Lists.antt =====
-- Slices: reads, writes, swaps, and how often a test holds.
use Prim.Native.Nat.{ℕ, zero, suc, ◌+◌, ◌≤◌}
use mathlib.Core.Path.{◌≡◌, refl, ap}
use mathlib.Core.Logic.{inl, inr}
use mathlib.Core.Bool.{Bool, true, false}
use mathlib.Core.Option.{Option, none, some}
use mathlib.Core.List.{List, [], ◌∷◌, ◌++◌}
use native.Mathlib.Omega.{arith}
use commute.Prelude.Base.{length, get_elem?, if◌then◌else◌, nat_beq, nat_beq_iff, Bool-cases}

module _ {A : Type 0} where
  abbrev pub set : List A → ℕ → A → List A
  set [] i v = []
  set (x ∷ xs) zero v = v ∷ xs
  set (x ∷ xs) (suc i) v = x ∷ set xs i v

  abbrev swap_found : List A → ℕ → ℕ → Option A → Option A → List A
  swap_found xs i j (some x) (some y) = set (set xs i y) j x
  swap_found xs i j _ _ = xs

  -- xs[i], xs[j] = xs[j], xs[i]
  unfoldable pub swap : List A → ℕ → ℕ → List A
  swap xs i j = swap_found xs i j (get_elem? xs i) (get_elem? xs j)

  -- slices.DeleteFunc
  unfoldable pub delete_func : (A → Bool) → List A → List A
  delete_func p [] = []
  delete_func p (x ∷ xs) = let rest = delete_func p xs in if p x then rest else x ∷ rest

  -- slices.ContainsFunc
  unfoldable pub contains_func : (A → Bool) → List A → Bool
  contains_func p [] = false
  contains_func p (x ∷ xs) = if p x then true else contains_func p xs

  abbrev pub all : (A → Bool) → List A → Bool
  all p [] = true
  all p (x ∷ xs) = if p x then all p xs else false

  abbrev pub all_of : (A → Bool) → Option A → Bool
  all_of p none = true
  all_of p (some x) = p x

  pub all-append :
      (p : A → Bool) (xs ys : List A) → all p xs ≡ true → all p ys ≡ true → all p (xs ++ ys) ≡ true
  all-append p [] ys h k = k
  all-append p (x ∷ xs) ys h k = ground (arith, all-append p xs ys)

  pub all_mono :
      (p q : A → Bool) (xs : List A)
      → ((x : A) → p x ≡ true → q x ≡ true)
      → all p xs ≡ true
      → all q xs ≡ true
  all_mono p q [] h k = refl
  all_mono p q (x ∷ xs) h k = ground (arith, h x, all_mono p q xs h)

  pub all_of_mono :
      (p q : A → Bool) (o : Option A)
      → ((x : A) → p x ≡ true → q x ≡ true)
      → all_of p o ≡ true
      → all_of q o ≡ true
  all_of_mono p q none h k = refl
  all_of_mono p q (some x) h k = h x k

  pub all-get_elem? :
      (p : A → Bool) (xs : List A) (i : ℕ) (x : A)
      → all p xs ≡ true
      → get_elem? xs i ≡ some x
      → p x ≡ true
  all-get_elem? p [] i x h e = cc
  all-get_elem? p (w ∷ xs) zero x h e = let f : w ≡ x = cc in rw⁻¹ f (ground arith)
  all-get_elem? p (w ∷ xs) (suc i) x h e = all-get_elem? p xs i x (ground arith) e

  pub all-set :
      (p : A → Bool) (xs : List A) (i : ℕ) (v : A)
      → all p xs ≡ true
      → p v ≡ true
      → all p (set xs i v) ≡ true
  all-set p [] i v h k = refl
  all-set p (w ∷ xs) zero v h k = ground arith
  all-set p (w ∷ xs) (suc i) v h k = ground (arith, all-set p xs i v)

  pub contains_func-append :
      (p : A → Bool) (xs ys : List A)
      → contains_func p ys ≡ true
      → contains_func p (xs ++ ys) ≡ true
  unfolding contains_func
  contains_func-append p [] ys h = h
  contains_func-append p (x ∷ xs) ys h = ground (arith, contains_func-append p xs ys)

  pub contains_func_head :
      (p : A → Bool) (x : A) (xs : List A) → p x ≡ true → contains_func p (x ∷ xs) ≡ true
  unfolding contains_func
  contains_func_head p x xs h = rw h refl

  pub contains_func_mono :
      (p q : A → Bool) (xs : List A)
      → ((x : A) → p x ≡ true → q x ≡ true)
      → contains_func p xs ≡ true
      → contains_func q xs ≡ true
  unfolding contains_func
  contains_func_mono p q [] h k = k
  contains_func_mono p q (x ∷ xs) h k = ground (arith, h x, contains_func_mono p q xs h)

  abbrev pub hit : (A → Bool) → A → ℕ
  hit p x = if p x then 1 else 0

  abbrev pub count : (A → Bool) → List A → ℕ
  count p [] = 0
  count p (x ∷ xs) = hit p x + count p xs

  pub count-append : (p : A → Bool) (xs ys : List A) → count p (xs ++ ys) ≡ count p xs + count p ys
  count-append p [] ys = omega arith
  count-append p (x ∷ xs) ys = omega (arith, count-append p xs ys)

  pub length-set : (xs : List A) (i : ℕ) (v : A) → length (set xs i v) ≡ length xs
  length-set [] i v = refl
  length-set (x ∷ xs) zero v = refl
  length-set (x ∷ xs) (suc i) v = ap suc (length-set xs i v)

  count-set :
      (p : A → Bool) (xs : List A) (i : ℕ) (x v : A)
      → get_elem? xs i ≡ some x
      → count p (set xs i v) + hit p x ≡ count p xs + hit p v
  count-set p [] i x v e = ground arith
  count-set p (w ∷ xs) zero x v e = ground arith
  count-set p (w ∷ xs) (suc i) x v e = omega (arith, count-set p xs i x v e)

  pub get_elem?-set :
      (xs : List A) (i j : ℕ) (v y : A)
      → get_elem? xs j ≡ some y
      → get_elem? (set xs i v) j ≡ some (if nat_beq i j then v else y)
  get_elem?-set [] i j v y e = ground arith
  get_elem?-set (x ∷ xs) zero zero v y e = refl
  get_elem?-set (x ∷ xs) zero (suc j) v y e = ground arith
  get_elem?-set (x ∷ xs) (suc i) zero v y e = ground arith
  get_elem?-set (x ∷ xs) (suc i) (suc j) v y e = ground (arith, get_elem?-set xs i j v y e)

  count-swap_found :
      (p : A → Bool) (xs : List A) (i j : ℕ) (o u : Option A)
      → get_elem? xs i ≡ o
      → get_elem? xs j ≡ u
      → count p (swap_found xs i j o u) ≡ count p xs
  count-swap_found p xs i j none u e f = refl
  count-swap_found p xs i j (some x) none e f = refl
  count-swap_found p xs i j (some x) (some y) e f = elim (Bool-cases (nat_beq i j)) [
    | inl q ↦
        let k : i ≡ j = (nat_beq_iff i j).0 q in
        let same : get_elem? xs i ≡ some y = rw k f in
        let r : x ≡ y = cc in
        omega (
          arith,
          count-set p xs i x y e,
          count-set p (set xs i y) j y x (rw (get_elem?-set xs i j y y f) (ground arith)),
          ap (hit p) r,
        )
    | inr q ↦ omega (
      arith,
      count-set p xs i x y e,
      count-set p (set xs i y) j y x (rw (get_elem?-set xs i j y y f) (ground arith)),
    )
  ]

  length-swap_found :
      (xs : List A) (i j : ℕ) (o u : Option A) → length (swap_found xs i j o u) ≡ length xs
  length-swap_found xs i j none u = refl
  length-swap_found xs i j (some x) none = refl
  length-swap_found xs i j (some x) (some y) =
      omega (arith, length-set (set xs i y) j x, length-set xs i y)

  -- A swap moves elements and changes none.
  pub count-swap : (p : A → Bool) (xs : List A) (i j : ℕ) → count p (swap xs i j) ≡ count p xs
  unfolding swap
  count-swap p xs i j = count-swap_found p xs i j (get_elem? xs i) (get_elem? xs j) refl refl

  pub length-swap : (xs : List A) (i j : ℕ) → length (swap xs i j) ≡ length xs
  unfolding swap
  length-swap xs i j = length-swap_found xs i j (get_elem? xs i) (get_elem? xs j)

  pub count-delete_func :
      (p q : A → Bool) (xs : List A)
      → ((x : A) → p x ≡ true → q x ≡ false)
      → count q (delete_func p xs) ≡ count q xs
  unfolding delete_func
  count-delete_func p q [] h = refl
  count-delete_func p q (x ∷ xs) h = ground (arith, h x, count-delete_func p q xs h)

  pub count-delete_func_self : (p : A → Bool) (xs : List A) → count p (delete_func p xs) ≡ 0
  unfolding delete_func
  count-delete_func_self p [] = refl
  count-delete_func_self p (x ∷ xs) = ground (arith, count-delete_func_self p xs)

  pub count-delete_func_le :
      (p q : A → Bool) (xs : List A) → count q (delete_func p xs) ≤ count q xs
  unfolding delete_func
  count-delete_func_le p q [] = omega arith
  count-delete_func_le p q (x ∷ xs) = ground (arith, count-delete_func_le p q xs)

  pub count-contains_func :
      (p : A → Bool) (xs : List A)
      → contains_func p xs ≡ (if nat_beq (count p xs) 0 then false else true)
  unfolding contains_func
  count-contains_func p [] = refl
  count-contains_func p (x ∷ xs) = ground (arith, count-contains_func p xs)
