-- ===== src/Prelude/Int.antt =====
-- Signed integers over the native numbers, and the int64 that a 64-bit pattern stands for.
use Prim.Native.Nat.{ℕ, suc, ◌+◌, ◌-◌}
use mathlib.Core.Path.{◌≡◌}
use native.Mathlib.Omega.{arith}
use commute.Prelude.Base.{leb, ltb, if◌then◌else◌, u64}

-- `negsuc n` is -(n + 1).
pub data ℤ : Type 0 where
  pos : ℕ → ℤ
  negsuc : ℕ → ℤ

abbrev pub pos_part : ℤ → ℕ
pos_part (pos n) = n
pos_part (negsuc n) = 0

abbrev pub neg_part : ℤ → ℕ
neg_part (pos n) = 0
neg_part (negsuc n) = suc n

-- a - b, as an integer.
abbrev pub sub_ℕ : ℕ → ℕ → ℤ
sub_ℕ a b = if leb b a then pos (a - b) else negsuc (b - a - 1)

infixl 65 ◌+ℤ◌ ◌-ℤ◌
unfoldable pub ◌+ℤ◌ : ℤ → ℤ → ℤ
a +ℤ b = sub_ℕ (pos_part a + pos_part b) (neg_part a + neg_part b)

unfoldable pub ◌-ℤ◌ : ℤ → ℤ → ℤ
a -ℤ b = sub_ℕ (pos_part a + neg_part b) (neg_part a + pos_part b)

-- 2^63
abbrev pub i64 : ℕ
i64 = 9223372036854775808

-- int64(w): the two's complement reading of a uint64.
abbrev pub signed64 : ℕ → ℤ
signed64 w = if ltb w i64 then pos w else negsuc (u64 - w - 1)

pub sub_ℕ-add : (a b n : ℕ) → sub_ℕ (a + n) b ≡ sub_ℕ a b +ℤ pos n
unfolding ◌+ℤ◌
sub_ℕ-add a b n = ground arith

pub sub_ℕ-sub : (a b n : ℕ) → sub_ℕ a (b + n) ≡ sub_ℕ a b -ℤ pos n
unfolding ◌-ℤ◌
sub_ℕ-sub a b n = ground arith
