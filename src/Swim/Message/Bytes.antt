-- ===== src/Swim/Message/Bytes.antt =====
-- encoding/binary: big-endian numbers, and slices of concatenations.
use commute.Prelude.{
  ℕ, zero, suc, ◌+◌, ◌*◌, ◌/◌, ◌%◌, ◌<◌, List, [], ◌∷◌, ◌++◌, ◌≡◌, refl, ap, arith, length,
  length-append, get_elem?, take, drop,
}

-- The low `n` bytes of a number, the highest first.
unfoldable pub big_endian : ℕ → ℕ → List ℕ
big_endian zero x = []
big_endian (suc n) x = big_endian n (x / 256) ++ (x % 256) ∷ []

of_big_endian_from : ℕ → List ℕ → ℕ
of_big_endian_from acc [] = acc
of_big_endian_from acc (b ∷ bs) = of_big_endian_from (acc * 256 + b) bs

unfoldable pub of_big_endian : List ℕ → ℕ
unfolding of_big_endian_from
of_big_endian bs = of_big_endian_from 0 bs

-- 256 ^ n
abbrev pub cap : ℕ → ℕ
cap zero = 1
cap (suc n) = 256 * cap n

of_big_endian_from-snoc :
    (acc : ℕ) (bs : List ℕ) (b : ℕ)
    → of_big_endian_from acc (bs ++ b ∷ []) ≡ of_big_endian_from acc bs * 256 + b
unfolding of_big_endian_from
of_big_endian_from-snoc acc [] b = refl
of_big_endian_from-snoc acc (c ∷ bs) b = of_big_endian_from-snoc (acc * 256 + c) bs b

pub of_big_endian-big_endian : (n x : ℕ) → x < cap n → of_big_endian (big_endian n x) ≡ x
unfolding of_big_endian big_endian
of_big_endian-big_endian zero x h = omega arith
of_big_endian-big_endian (suc n) x h = omega (
  arith,
  of_big_endian_from-snoc 0 (big_endian n (x / 256)) (x % 256),
  of_big_endian-big_endian n (x / 256) (omega arith),
)

pub length-big_endian : (n x : ℕ) → length (big_endian n x) ≡ n
unfolding big_endian
length-big_endian zero x = refl
length-big_endian (suc n) x =
    omega (
      arith,
      length-append (big_endian n (x / 256)) ((x % 256) ∷ []),
      length-big_endian n (x / 256),
    )

module _ {A : Type 0} where
  pub take-append : (n : ℕ) (xs ys : List A) → n ≡ length xs → take n (xs ++ ys) ≡ xs
  take-append zero [] ys h = refl
  take-append zero (x ∷ xs) ys h = absurd (omega arith)
  take-append (suc n) [] ys h = absurd (omega arith)
  take-append (suc n) (x ∷ xs) ys h = ap (◌∷◌ x) (take-append n xs ys (omega arith))

  pub drop-append : (n i : ℕ) (xs ys : List A) → n ≡ length xs + i → drop n (xs ++ ys) ≡ drop i ys
  drop-append n i [] ys h = let e : n ≡ i = omega arith in ap (λ k. drop k ys) e
  drop-append zero i (x ∷ xs) ys h = absurd (omega arith)
  drop-append (suc n) i (x ∷ xs) ys h = drop-append n i xs ys (omega arith)

  pub get_elem?-append :
      (n i : ℕ) (xs ys : List A) → n ≡ length xs + i → get_elem? (xs ++ ys) n ≡ get_elem? ys i
  get_elem?-append n i [] ys h = let e : n ≡ i = omega arith in ap (get_elem? ys) e
  get_elem?-append zero i (x ∷ xs) ys h = absurd (omega arith)
  get_elem?-append (suc n) i (x ∷ xs) ys h = get_elem?-append n i xs ys (omega arith)

  pub take_all : (n : ℕ) (xs : List A) → n ≡ length xs → take n xs ≡ xs
  take_all zero [] h = refl
  take_all zero (x ∷ xs) h = absurd (omega arith)
  take_all (suc n) [] h = absurd (omega arith)
  take_all (suc n) (x ∷ xs) h = ap (◌∷◌ x) (take_all n xs (omega arith))
