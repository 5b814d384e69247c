-- ===== src/Prelude/Raising.antt =====
-- Python exceptions as values. An `Outcome` is what a call returns, or what it raises.
use mathlib.Core.Path.{◌≡◌, refl}
use mathlib.Core.Logic.{◌⊎◌, inl, inr}

-- `transient` stands for ConnectionError, TimeoutError and OSError, which the callers catch;
-- `contract` for the programming errors that they let through.
pub data Exception : Type 0 where
  zero_division value_error key_error lookup_error invalid_transition transient contract : Exception

pub data Outcome {ℓ} (A : Type ℓ) : Type ℓ where
  ok : A → Outcome A
  raised : Exception → Outcome A

infixl 5 ◌>>=◌
abbrev pub ◌>>=◌ {ℓ κ} : {A : Type ℓ} {B : Type κ} → Outcome A → (A → Outcome B) → Outcome B
ok a >>= f = f a
raised e >>= f = raised e

-- A chain that returns has returned at each step.
pub >>=-eq-ok {ℓ κ} :
    {A : Type ℓ} {B : Type κ} (first : Outcome A) (next : A → Outcome B) {last : B}
    → (first >>= next) ≡ ok last
    → (value : A) × (first ≡ ok value) × (next value ≡ ok last)
>>=-eq-ok (ok value) next returns = (value, refl, returns)
>>=-eq-ok (raised e) next returns = cc

pub Outcome-cases {ℓ} :
    {A : Type ℓ} (o : Outcome A) → ((a : A) × (o ≡ ok a)) ⊎ ((e : Exception) × (o ≡ raised e))
Outcome-cases (ok a) = inl (a, refl)
Outcome-cases (raised e) = inr (e, refl)

-- The call returns.
abbrev pub Returns {ℓ} : {A : Type ℓ} → Outcome A → Type ℓ
Returns {A = A} o = (a : A) × (o ≡ ok a)

pub >>=-Returns {ℓ κ} :
    {A : Type ℓ} {B : Type κ} (m : Outcome A) (g : A → Outcome B)
    → Returns m
    → ((a : A) → Returns (g a))
    → Returns (m >>= g)
>>=-Returns (ok a) g m_returns g_returns = g_returns a
>>=-Returns (raised e) g m_returns g_returns = let same = m_returns.1 in cc

-- What holds of the value, if the call returns one.
abbrev pub IfOk {ℓ κ} : {A : Type ℓ} → (A → Type κ) → Outcome A → Type κ
IfOk P (ok a) = P a
IfOk P (raised e) = Unit

pub >>=-IfOk {ℓ κ μ} :
    {A : Type ℓ} {B : Type κ} (P : B → Type μ) (m : Outcome A) (g : A → Outcome B)
    → ((a : A) → m ≡ ok a → IfOk P (g a))
    → IfOk P (m >>= g)
>>=-IfOk P (ok a) g h = h a refl
>>=-IfOk P (raised e) g h = tt

pub IfOk-mono {ℓ κ μ} :
    {A : Type ℓ} {P : A → Type κ} {Q : A → Type μ} (o : Outcome A)
    → ((a : A) → P a → Q a)
    → IfOk P o
    → IfOk Q o
IfOk-mono (ok a) f h = f a h
IfOk-mono (raised e) f h = tt
