-- ===== src/Prelude/Strings.antt =====
-- Go strings: sequences of bytes, with `==` and the lexicographic order of `<`.
use Prim.Native.Nat.{ℕ}
use mathlib.Core.Path.{◌≡◌, refl}
use mathlib.Core.Logic.{◌↔◌}
use mathlib.Core.Bool.{Bool, true, false, ◌&&◌, ◌||◌}
use mathlib.Core.List.{List, [], ◌∷◌}
use native.Mathlib.Omega.{arith}
use commute.Prelude.Base.{ltb, nat_beq, Key}

abbrev pub Str : Type 0
Str = List ℕ

abbrev pub str_beq : Str → Str → Bool
str_beq [] [] = true
str_beq [] (b ∷ t) = false
str_beq (a ∷ s) [] = false
str_beq (a ∷ s) (b ∷ t) = nat_beq a b && str_beq s t

pub str_beq_iff : (s t : Str) → (str_beq s t ≡ true) ↔ (s ≡ t)
str_beq_iff [] [] = ground arith
str_beq_iff [] (b ∷ t) = ground arith
str_beq_iff (a ∷ s) [] = ground arith
str_beq_iff (a ∷ s) (b ∷ t) = ground (arith, str_beq_iff s t)

instance abbrev pub str_eq : Key Str
str_eq = record { same = str_beq; same_iff = str_beq_iff }

-- s < t
abbrev pub str_ltb : Str → Str → Bool
str_ltb [] [] = false
str_ltb [] (b ∷ t) = true
str_ltb (a ∷ s) [] = false
str_ltb (a ∷ s) (b ∷ t) = ltb a b || (nat_beq a b && str_ltb s t)

pub str_ltb_irrefl : (s : Str) → str_ltb s s ≡ false
str_ltb_irrefl [] = refl
str_ltb_irrefl (a ∷ s) = ground (arith, str_ltb_irrefl s)

pub str_ltb_trans : (r s t : Str) → str_ltb r s ≡ true → str_ltb s t ≡ true → str_ltb r t ≡ true
str_ltb_trans [] [] t h k = ground arith
str_ltb_trans [] (b ∷ s) [] h k = ground arith
str_ltb_trans [] (b ∷ s) (c ∷ t) h k = refl
str_ltb_trans (a ∷ r) [] t h k = ground arith
str_ltb_trans (a ∷ r) (b ∷ s) [] h k = ground arith
str_ltb_trans (a ∷ r) (b ∷ s) (c ∷ t) h k = ground (arith, str_ltb_trans r s t)

pub str_ltb_total : (s t : Str) → str_ltb s t ≡ false → str_ltb t s ≡ false → s ≡ t
str_ltb_total [] [] h k = refl
str_ltb_total [] (b ∷ t) h k = ground arith
str_ltb_total (a ∷ s) [] h k = ground arith
str_ltb_total (a ∷ s) (b ∷ t) h k = ground (arith, str_ltb_total s t)

pub not-str_ltb_nil : (s : Str) → str_ltb s [] ≡ false
not-str_ltb_nil [] = refl
not-str_ltb_nil (a ∷ s) = refl

pub not-str_ltb_trans :
    (r s t : Str) → str_ltb s r ≡ false → str_ltb t s ≡ false → str_ltb t r ≡ false
not-str_ltb_trans r [] [] h k = h
not-str_ltb_trans [] s (c ∷ t) h k = refl
not-str_ltb_trans [] (b ∷ s) [] h k = refl
not-str_ltb_trans (a ∷ r) [] (c ∷ t) h k = ground arith
not-str_ltb_trans (a ∷ r) (b ∷ s) [] h k = ground arith
not-str_ltb_trans (a ∷ r) (b ∷ s) (c ∷ t) h k = ground (arith, not-str_ltb_trans r s t)
