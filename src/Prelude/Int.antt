-- ===== src/Prelude/Int.antt =====
-- Signed integers over the native numbers.
use Prim.Native.Nat.{ℕ, zero, suc, ◌+◌, ◌-◌, ◌*◌, ◌/◌, ◌≤◌}
use mathlib.Core.Bool.{Bool}
use native.Mathlib.Nat.{div-mul-le_self, le-div_iff_mul-le, le_trans, mul-le-mul_right}
use native.Mathlib.Omega.{arith}
use squeeze_hunter.Prelude.Tests.{ltb, leb, if◌then◌else◌}

-- `negsuc n` is -(n + 1).
pub data ℤ : Type 0 where
  pos : ℕ → ℤ
  negsuc : ℕ → ℤ

abbrev pub pos_part : ℤ → ℕ
pos_part (pos n) = n
pos_part (negsuc n) = 0

abbrev pub neg_part : ℤ → ℕ
neg_part (pos n) = 0
neg_part (negsuc n) = suc n

-- a - b, as an integer.
abbrev pub sub_ℕ : ℕ → ℕ → ℤ
sub_ℕ a b = if leb b a then pos (a - b) else negsuc (b - a - 1)

abbrev pub ◌≤ℤ◌ : ℤ → ℤ → Type 0
◌≤ℤ◌ a b = pos_part a + neg_part b ≤ pos_part b + neg_part a

abbrev pub ltb_ℤ : ℤ → ℤ → Bool
ltb_ℤ a b = ltb (pos_part a + neg_part b) (pos_part b + neg_part a)

abbrev pub leb_ℤ : ℤ → ℤ → Bool
leb_ℤ a b = leb (pos_part a + neg_part b) (pos_part b + neg_part a)

unfoldable pub add : ℤ → ℤ → ℤ
add a b = sub_ℕ (pos_part a + pos_part b) (neg_part a + neg_part b)

unfoldable pub sub : ℤ → ℤ → ℤ
sub a b = sub_ℕ (pos_part a + neg_part b) (neg_part a + pos_part b)

-- Products and quotients by sign and magnitude; the quotient goes towards zero.
unfoldable pub mul : ℤ → ℤ → ℤ
mul (pos a) (pos b) = pos (a * b)
mul (pos a) (negsuc b) = sub_ℕ 0 (a * suc b)
mul (negsuc a) (pos b) = sub_ℕ 0 (suc a * b)
mul (negsuc a) (negsuc b) = pos (suc a * suc b)

unfoldable pub quot : ℤ → ℤ → ℤ
quot (pos a) (pos b) = pos (a / b)
quot (pos a) (negsuc b) = sub_ℕ 0 (a / suc b)
quot (negsuc a) (pos b) = sub_ℕ 0 (suc a / b)
quot (negsuc a) (negsuc b) = pos (suc a / suc b)

-- Taking the same amount off keeps the order.
pub sub_mono : (a b c : ℤ) → ◌≤ℤ◌ a b → ◌≤ℤ◌ (sub a c) (sub b c)
unfolding sub
sub_mono a b c h = ground arith

div_mono : (a b c : ℕ) → a ≤ b → a / c ≤ b / c
div_mono a b zero h = omega arith
div_mono a b (suc c) h =
    (le-div_iff_mul-le (omega arith)).1 (le_trans (div-mul-le_self a (suc c)) h)

-- So does dividing by a positive number.
pub quot_mono : (a b : ℤ) (c : ℕ) → ◌≤ℤ◌ a b → ◌≤ℤ◌ (quot a (pos c)) (quot b (pos c))
unfolding quot
quot_mono (pos a) (pos b) c h = ground (arith, div_mono a b c)
quot_mono (pos a) (negsuc b) c h = absurd (omega arith)
quot_mono (negsuc a) (pos b) c h = ground arith
quot_mono (negsuc a) (negsuc b) c h = ground (arith, div_mono (suc b) (suc a) c)

-- And scaling up.
pub mul_mono : (a b : ℤ) (c : ℕ) → ◌≤ℤ◌ a b → ◌≤ℤ◌ (mul a (pos c)) (mul b (pos c))
unfolding mul
mul_mono (pos a) (pos b) c h = ground (arith, mul-le-mul_right {m = a} {n = b} c (omega arith))
mul_mono (pos a) (negsuc b) c h = absurd (omega arith)
mul_mono (negsuc a) (pos b) c h = ground arith
mul_mono (negsuc a) (negsuc b) c h =
    ground (arith, mul-le-mul_right {m = suc b} {n = suc a} c (omega arith))
