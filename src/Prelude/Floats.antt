-- ===== src/Prelude/Floats.antt =====
-- Python's `float`, as an interface: the operations that the program uses, and laws that hold of
-- IEEE 754 doubles (NaN is the value that is not `<=` itself; rounding keeps the order).

use mathlib.Core.Path.{◌≡◌}
use mathlib.Core.Logic.{◌⊎◌}
use mathlib.Core.Bool.{Bool, true, false, not, ◌&&◌}
use Prim.Native.Nat.{ℕ, ◌<◌}
use native.Mathlib.Omega.{arith}
use squeeze_hunter.Prelude.Tests.{if◌then◌else◌}
use squeeze_hunter.Prelude.Raising.{Outcome, ok, raised, zero_division}
use squeeze_hunter.Prelude.Int.{ℤ}

pub record Floats {ℓ} (F : Type ℓ) : Type ℓ where
  -- `dec m k` is the literal m / 10^k.
  pub dec : ℕ → ℕ → F
  pub of_int : ℤ → F
  pub add : F → F → F
  pub sub : F → F → F
  pub mul : F → F → F
  -- The quotient by a number other than zero; see `divide`.
  pub quotient : F → F → F
  -- `x // y` for y other than zero; see `floor_divide`.
  pub floored : F → F → F
  pub neg : F → F
  pub abs : F → F
  pub lt : F → F → Bool
  pub le : F → F → Bool
  pub eq : F → F → Bool
  pub is_finite : F → Bool
  -- `math.floor` and `math.ceil`, which raise at NaN and at the infinities.
  pub floor : F → Outcome ℤ
  pub ceil : F → Outcome ℤ
  -- `round(x, digits)`
  pub round_at : F → ℕ → F

module _ {ℓ} {F : Type ℓ} ⦃f : Floats F⦄ where
  abbrev pub nought : F
  nought = f.dec 0 0

  -- `int` as an operand of float arithmetic.
  abbrev pub of_nat : ℕ → F
  of_nat n = f.dec n 0

  infix 50 ◌≼◌ ◌≺◌
  abbrev pub ◌≼◌ : F → F → Type 0
  x ≼ y = f.le x y ≡ true

  abbrev pub ◌≺◌ : F → F → Type 0
  x ≺ y = f.lt x y ≡ true

  -- Not NaN.
  abbrev pub IsNumber : F → Type 0
  IsNumber x = x ≼ x

  -- `x / y`
  abbrev pub divide : F → F → Outcome F
  divide x y = if f.eq y nought then raised zero_division else ok (f.quotient x y)

  -- `int(x // y)`
  abbrev pub floor_divide : F → F → Outcome ℤ
  floor_divide x y = if f.eq y nought then raised zero_division else f.floor (f.floored x y)

  -- `max(x, y)` and `min(x, y)`: the first, unless the second is strictly beyond it.
  abbrev pub fmax : F → F → F
  fmax x y = if f.lt x y then y else x

  abbrev pub fmin : F → F → F
  fmin x y = if f.lt y x then y else x

  -- `bool(x)`: NaN is true.
  abbrev pub truthy : F → Bool
  truthy x = not (f.eq x nought)

  -- `x or y`
  abbrev pub or_else : F → F → F
  or_else x y = if truthy x then x else y

pub record IsOrdered {ℓ} (F : Type ℓ) ⦃f : Floats F⦄ : Type ℓ where
  pub number_of_le : (x y : F) → x ≼ y → IsNumber x × IsNumber y
  pub number_of_lt : (x y : F) → x ≺ y → IsNumber x × IsNumber y
  pub le_trans : (x y z : F) → x ≼ y → y ≼ z → x ≼ z
  pub le_total : (x y : F) → IsNumber x → IsNumber y → (x ≼ y) ⊎ (y ≼ x)
  pub lt-eq-not-le : (x y : F) → IsNumber x → IsNumber y → f.lt x y ≡ not (f.le y x)
  pub eq-eq-le : (x y : F) → f.eq x y ≡ (f.le x y && f.le y x)
  pub dec-IsNumber : (m k : ℕ) → IsNumber (f.dec m k)
  pub is_finite-IsNumber : (x : F) → f.is_finite x ≡ true → IsNumber x
  pub of_nat_pos : (n : ℕ) → 0 < n → f.lt (f.dec 0 0) (f.dec n 0) ≡ true
  pub sub-IsNumber : (x y : F) → f.is_finite x ≡ true → f.is_finite y ≡ true → IsNumber (f.sub x y)
  pub quotient-IsNumber :
      (x y : F) → IsNumber x → f.is_finite y ≡ true → nought ≺ y → IsNumber (f.quotient x y)
  pub sub_mono :
      (x y z : F) → x ≼ y → IsNumber (f.sub x z) → IsNumber (f.sub y z) → f.sub x z ≼ f.sub y z
  pub quotient_mono :
      (x y z : F)
      → x ≼ y
      → nought ≺ z
      → IsNumber (f.quotient x z)
      → IsNumber (f.quotient y z)
      → f.quotient x z ≼ f.quotient y z

-- Consequences of the laws, for the tests that the code makes.
module _ {ℓ} {F : Type ℓ} ⦃f : Floats F⦄ (laws : IsOrdered F) where
  open laws use {
    number_of_le, number_of_lt, le_trans, le_total, lt-eq-not-le, eq-eq-le, dec-IsNumber,
  }

  pub le_of_lt : (x y : F) → x ≺ y → x ≼ y
  le_of_lt x y h =
      let (nx, ny) = number_of_lt x y h in
      ground (arith, lt-eq-not-le x y nx ny, le_total x y nx ny)

  pub le_of_not-lt : (x y : F) → IsNumber x → IsNumber y → f.lt y x ≡ false → x ≼ y
  le_of_not-lt x y nx ny h = ground (arith, lt-eq-not-le y x ny nx)

  pub lt_of_not-le : (x y : F) → IsNumber x → IsNumber y → f.le y x ≡ false → x ≺ y
  lt_of_not-le x y nx ny h = ground (arith, lt-eq-not-le x y nx ny)

  pub lt_of_lt_of_le : (x y z : F) → x ≺ y → y ≼ z → x ≺ z
  lt_of_lt_of_le x y z h k =
      let (nx, ny) = number_of_lt x y h in
      let nz = (number_of_le y z k).1 in
      ground (arith, lt-eq-not-le x y nx ny, lt-eq-not-le x z nx nz, le_trans y z x k)

  -- What is above zero is not equal to zero, so a division by it returns.
  pub pos-ne-zero : (x : F) → nought ≺ x → f.eq x nought ≡ false
  pos-ne-zero x h =
      let (nz, nx) = number_of_lt nought x h in
      ground (arith, eq-eq-le x nought, lt-eq-not-le nought x nz nx)

  -- Nor is what is not `<= 0`, NaN included.
  pub not-le-zero-ne-zero : (x : F) → f.le x nought ≡ false → f.eq x nought ≡ false
  not-le-zero-ne-zero x h = ground (arith, eq-eq-le x nought)

  -- The larger of two numbers is one, and is at least each of them.
  pub le-fmax :
      (x y : F) → IsNumber x → IsNumber y → (x ≼ fmax x y) × (y ≼ fmax x y) × IsNumber (fmax x y)
  le-fmax x y nx ny = ground (arith, le_of_lt x y, le_of_not-lt y x ny nx)
