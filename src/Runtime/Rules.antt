-- ===== src/Runtime/Rules.antt =====
-- Rules for the jobs of runtime.py: what every way out of a job keeps, and what holds if it returns.
use squeeze_hunter.Prelude.{
  ◌≡◌, ap, inl, inr, Bool, true, false, Outcome, ok, raised, IfOk, Bool-cases, Outcome-cases,
  if◌then◌else◌,
}
use squeeze_hunter.Execution.Lifecycle.{is_transient}
use squeeze_hunter.Runtime.{RuntimeContext, Job, ◌>>=◌, when, or_transient}

module _ {F W : Type 0} where
  -- The job keeps a property, also when it raises.
  abbrev pub Keeps : {A : Type 0} → (RuntimeContext F → W → Type 0) → Job F W A → Type 0
  Keeps P m = (s : RuntimeContext F) (w : W) → P s w → P (m s w).1 (m s w).2

  -- From one property, if the job returns, the other holds.
  abbrev pub Gives :
      {A : Type 0}
      → (RuntimeContext F → W → Type 0)
      → Job F W A
      → (A → RuntimeContext F → W → Type 0)
      → Type 0
  Gives P m Q =
      (s : RuntimeContext F) (w : W) → P s w → IfOk (λ a. Q a (m s w).1 (m s w).2) (m s w).0

  pub >>=-run :
      {A B : Type 0} (m : Job F W A) (g : A → Job F W B) (s : RuntimeContext F) (w : W) {a : A}
      {t : RuntimeContext F} {v : W}
      → m s w ≡ (ok a, t, v)
      → (m >>= g) s w ≡ g a t v
  >>=-run {A} {B} m g s w e =
      ap
        (λ (x : Outcome A × RuntimeContext F × W).
          let y : Outcome B × RuntimeContext F × W = elim x.0 [
            | ok a ↦ g a x.1 x.2
            | raised e ↦ (raised e, x.1, x.2)
          ] in
          y)
        e

  pub >>=-Keeps :
      {A B : Type 0} (P : RuntimeContext F → W → Type 0) (m : Job F W A) (g : A → Job F W B)
      → Keeps P m
      → ((a : A) → Keeps P (g a))
      → Keeps P (m >>= g)
  >>=-Keeps P m g first next s w h = elim (Outcome-cases (m s w).0) [
    | inl (a, e) ↦ rw (◌>>=◌, e) (next a (m s w).1 (m s w).2 (first s w h))
    | inr (x, e) ↦ rw (◌>>=◌, e) (first s w h)
  ]

  -- A first stage that turns one property into another, which the rest keeps.
  pub >>=-then-Keeps :
      {A B : Type 0} (P Q : RuntimeContext F → W → Type 0) (m : Job F W A) (g : A → Job F W B)
      → ((s : RuntimeContext F) (w : W) → P s w → Q (m s w).1 (m s w).2)
      → ((a : A) → Keeps Q (g a))
      → (s : RuntimeContext F) (w : W) → P s w
      → Q ((m >>= g) s w).1 ((m >>= g) s w).2
  >>=-then-Keeps P Q m g first next s w h = elim (Outcome-cases (m s w).0) [
    | inl (a, e) ↦ rw (◌>>=◌, e) (next a (m s w).1 (m s w).2 (first s w h))
    | inr (x, e) ↦ rw (◌>>=◌, e) (first s w h)
  ]

  pub or_transient-Keeps :
      {A : Type 0} (P : RuntimeContext F → W → Type 0) (m : Job F W A) (fallback : A)
      → Keeps P m
      → Keeps P (or_transient m fallback)
  or_transient-Keeps P m fallback first s w h = elim (Outcome-cases (m s w).0) [
    | inl (a, e) ↦ rw (or_transient, e) (first s w h)
    | inr (x, e) ↦ elim (Bool-cases (is_transient x)) [
      | inl c ↦ rw (or_transient, e, c) (first s w h)
      | inr c ↦ rw (or_transient, e, c) (first s w h)
    ]
  ]

  pub when-Keeps :
      (P : RuntimeContext F → W → Type 0) (test : Bool) (m : Job F W (Unit {0}))
      → Keeps P m
      → Keeps P (when test m)
  when-Keeps P true m first s w h = first s w h
  when-Keeps P false m first s w h = h

  pub if-Keeps :
      {A : Type 0} (P : RuntimeContext F → W → Type 0) (test : RuntimeContext F → Bool)
      (m k : Job F W A)
      → Keeps P m
      → Keeps P k
      → Keeps P (λ s w. if test s then m s w else k s w)
  if-Keeps P test m k first second s w h = elim (Bool-cases (test s)) [
    | inl c ↦ rw c (first s w h)
    | inr c ↦ rw c (second s w h)
  ]

  pub >>=-Gives :
      {A B : Type 0} (P : RuntimeContext F → W → Type 0) (m : Job F W A) (g : A → Job F W B)
      (Q : A → RuntimeContext F → W → Type 0) (R : B → RuntimeContext F → W → Type 0)
      → Gives P m Q
      → ((a : A) → Gives (Q a) (g a) R)
      → Gives P (m >>= g) R
  >>=-Gives P m g Q R first next s w h =
      let reached = first s w h in
      elim (Outcome-cases (m s w).0) [
        | inl (a, e) ↦ rw (◌>>=◌, e) (next a (m s w).1 (m s w).2 (rw e at reached))
        | inr (x, e) ↦ rw (◌>>=◌, e) tt
      ]

  -- What is kept on every way out is there if the job returns.
  pub Keeps-Gives :
      {A : Type 0} (P : RuntimeContext F → W → Type 0) (m : Job F W A)
      → Keeps P m
      → Gives P m (λ a. P)
  Keeps-Gives P m first s w h = elim (Outcome-cases (m s w).0) [
    | inl (a, e) ↦ rw e (first s w h)
    | inr (x, e) ↦ rw e tt
  ]
