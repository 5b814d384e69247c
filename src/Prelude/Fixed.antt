-- ===== src/Prelude/Fixed.antt =====
-- A number type that meets the laws of floats and runs: ten-thousandths, with `none` for NaN.
use mathlib.Core.Path.{◌≡◌}
use mathlib.Core.Bool.{Bool, true, false, ◌&&◌}
use mathlib.Core.Option.{Option, none, some}
use Prim.Native.Nat.{ℕ, suc, ◌+◌, ◌*◌, ◌/◌, ◌^◌, ◌-◌}
use native.Mathlib.Omega.{arith}
use squeeze_hunter.Prelude.Tests.{is_some}
use squeeze_hunter.Prelude.Raising.{Outcome, ok, raised, value_error}
use squeeze_hunter.Prelude.Int.{
  ℤ, pos, negsuc, leb_ℤ, ltb_ℤ, pos_part, neg_part, sub_ℕ, add, sub, mul, quot, sub_mono, quot_mono,
  mul_mono, ◌≤ℤ◌,
}
use squeeze_hunter.Prelude.Floats.{Floats, IsOrdered, IsNumber, nought, ◌≼◌, ◌≺◌}

abbrev pub Fixed : Type 0
Fixed = Option ℤ

abbrev unit : ℕ
unit = 10_000

abbrev on_numbers : (ℤ → ℤ → ℤ) → Fixed → Fixed → Fixed
on_numbers g (some a) (some b) = some (g a b)
on_numbers g _ _ = none

abbrev test_numbers : (ℤ → ℤ → Bool) → Fixed → Fixed → Bool
test_numbers g (some a) (some b) = g a b
test_numbers g _ _ = false

-- The whole number below, and the one above.
abbrev floor_units : ℤ → ℤ
floor_units (pos n) = pos (n / unit)
floor_units (negsuc n) = negsuc (n / unit)

abbrev ceil_units : ℤ → ℤ
ceil_units (pos n) = pos ((n + (unit - 1)) / unit)
ceil_units (negsuc n) = sub_ℕ 0 (suc n / unit)

abbrev whole : (ℤ → ℤ) → Fixed → Outcome ℤ
whole g none = raised value_error
whole g (some a) = ok (g a)

abbrev unary : (ℤ → ℤ) → Fixed → Fixed
unary g none = none
unary g (some a) = some (g a)

-- `round` does nothing at four digits or more, which is all that the program asks for.
instance abbrev pub fixed_floats : Floats Fixed
fixed_floats = record {
  dec = λ m k. some (pos (m * unit / 10 ^ k));
  of_int = λ a. some (mul a (pos unit));
  add = on_numbers add;
  sub = on_numbers sub;
  mul = on_numbers λ a b. quot (mul a b) (pos unit);
  quotient = on_numbers λ a b. quot (mul a (pos unit)) b;
  floored = on_numbers λ a b. mul (floor_units (quot (mul a (pos unit)) b)) (pos unit);
  neg = unary λ a. sub_ℕ (neg_part a) (pos_part a);
  abs = unary λ a. pos (pos_part a + neg_part a);
  lt = test_numbers ltb_ℤ;
  le = test_numbers leb_ℤ;
  eq = test_numbers λ a b. leb_ℤ a b && leb_ℤ b a;
  is_finite = is_some;
  floor = whole floor_units;
  ceil = whole ceil_units;
  round_at = λ x digits. x;
}

leb_ℤ→≤ℤ : (a b : ℤ) → leb_ℤ a b ≡ true → ◌≤ℤ◌ a b
leb_ℤ→≤ℤ a b h = ground arith

≤ℤ→leb_ℤ : (a b : ℤ) → ◌≤ℤ◌ a b → leb_ℤ a b ≡ true
≤ℤ→leb_ℤ a b h = ground arith

fixed_sub_mono :
    (x y z : Fixed)
    → x ≼ y
    → IsNumber (fixed_floats.sub x z)
    → IsNumber (fixed_floats.sub y z)
    → fixed_floats.sub x z ≼ fixed_floats.sub y z
fixed_sub_mono (some a) (some b) (some c) h m n =
    ≤ℤ→leb_ℤ (sub a c) (sub b c) (sub_mono a b c (leb_ℤ→≤ℤ a b h))
fixed_sub_mono none y z h m n = cc
fixed_sub_mono (some a) none z h m n = cc
fixed_sub_mono (some a) (some b) none h m n = cc

fixed_quotient_mono :
    (x y z : Fixed)
    → x ≼ y
    → nought ≺ z
    → IsNumber (fixed_floats.quotient x z)
    → IsNumber (fixed_floats.quotient y z)
    → fixed_floats.quotient x z ≼ fixed_floats.quotient y z
fixed_quotient_mono (some a) (some b) (some (pos c)) h z m n =
    ≤ℤ→leb_ℤ (quot (mul a (pos unit)) (pos c)) (quot (mul b (pos unit)) (pos c))
      (quot_mono (mul a (pos unit)) (mul b (pos unit)) c (mul_mono a b unit (leb_ℤ→≤ℤ a b h)))
fixed_quotient_mono (some a) (some b) (some (negsuc c)) h z m n = ground arith
fixed_quotient_mono none y z h p m n = cc
fixed_quotient_mono (some a) none z h p m n = cc
fixed_quotient_mono (some a) (some b) none h p m n = cc

pub Fixed-IsOrdered : IsOrdered Fixed
Fixed-IsOrdered = record {
  number_of_le = ground arith;
  number_of_lt = ground arith;
  le_trans = ground arith;
  le_total = ground arith;
  lt-eq-not-le = ground arith;
  eq-eq-le = ground arith;
  dec-IsNumber = ground arith;
  is_finite-IsNumber = ground arith;
  of_nat_pos = ground arith;
  sub-IsNumber = ground arith;
  quotient-IsNumber = ground arith;
  sub_mono = fixed_sub_mono;
  quotient_mono = fixed_quotient_mono;
}
