-- ===== src/Risk/Kelly/Bounds.antt =====
-- The Kelly size of risk/kelly.py always returns, and lies between zero and the cap.
use squeeze_hunter.Prelude.{ℕ, ◌+◌, ◌≡◌, true, ok, if◌then◌else◌, ltb, arith, Bool-cases, inl, inr}
use squeeze_hunter.Prelude.Floats.{
  Floats, nought, of_nat, fmax, fmin, ◌≼◌, IsOrdered, le_of_lt, le_of_not-lt, pos-ne-zero,
  not-le-zero-ne-zero,
}
use squeeze_hunter.Setup.{Setup, is_weak}
use squeeze_hunter.Risk.Kelly.{
  KellyParams, Priors, ratio_or, blend, sized, kelly_position_pct, kelly_priors_for_setup,
}

module _ {F : Type 0} ⦃f : Floats F⦄ (laws : IsOrdered F) where
  ratio_or-returns : (a b : ℕ) (d : F) → (q : F) × (ratio_or a b d ≡ ok q)
  ratio_or-returns a b d = (
    if ltb 0 b then f.quotient (of_nat a) (of_nat b) else d,
    ground (arith, laws.of_nat_pos b, pos-ne-zero laws (of_nat b)),
  )

  clamp_bounds :
      (x cap : F)
      → nought ≼ cap
      → (nought ≼ fmin (fmax nought x) cap) × (fmin (fmax nought x) cap ≼ cap)
  clamp_bounds x cap h =
      let number_of_zero = laws.dec-IsNumber 0 0 in
      let number_of_cap = (laws.number_of_le nought cap h).1 in
      ground (
        arith,
        laws.number_of_lt nought x,
        le_of_lt laws nought x,
        number_of_cap,
        le_of_not-lt laws x cap,
        number_of_zero,
      )

  sized_bounds :
      (p b : F) (params : KellyParams F)
      → nought ≼ params.cap
      → (pct : F) × (sized p b params ≡ ok pct) × (nought ≼ pct) × (pct ≼ params.cap)
  unfolding sized
  sized_bounds p b params h = elim (Bool-cases (f.le b nought)) [
    | inl flat ↦ (nought, ground arith, laws.dec-IsNumber 0 0, h)
    | inr up ↦
        let raw = f.quotient (f.sub (f.mul p b) (f.sub (of_nat 1) p)) b in
        let bounds = clamp_bounds (f.mul params.fraction raw) params.cap h in
        (
          fmin (fmax nought (f.mul params.fraction raw)) params.cap,
          ground (arith, not-le-zero-ne-zero laws b up),
          bounds.0,
          bounds.1,
        )
  ]

  -- Whatever has been observed, NaN included, and for every cap that is not negative, the computation
  -- raises nothing and its result lies between zero and the cap.
  pub kelly_position_pct_bounds :
      (wins trades : ℕ) (payoff : F) (params : KellyParams F)
      → nought ≼ params.cap
      → (pct : F) × (kelly_position_pct wins trades payoff params ≡ ok pct)
        × (nought ≼ pct)
        × (pct ≼ params.cap)
  unfolding kelly_position_pct
  kelly_position_pct_bounds wins trades payoff params h =
      let (weight, e₁) = ratio_or-returns trades (trades + params.prior_n) nought in
      let (p_obs, e₂) = ratio_or-returns wins trades params.prior_win_rate in
      let b_obs = if ltb 0 trades then payoff else params.prior_payoff in
      rw (e₁, e₂)
        (sized_bounds (blend weight p_obs params.prior_win_rate)
          (blend weight b_obs params.prior_payoff) params h)

  -- A weak setup is sized to zero: its Kelly size compares as at most zero and at least zero, whatever
  -- the settings and whatever has been observed.
  kelly_weak_zero :
      (setup : Setup) (fraction cap : F) (prior_n : ℕ) (priors : Priors F) (wins trades : ℕ)
      (payoff : F)
      → is_weak setup ≡ true
      → (pct : F) × (kelly_position_pct wins trades payoff
            (kelly_priors_for_setup setup fraction cap prior_n priors)
          ≡ ok pct)
        × (nought ≼ pct)
        × (pct ≼ nought)
  unfolding kelly_priors_for_setup
  kelly_weak_zero setup fraction cap prior_n priors wins trades payoff h =
      let params = kelly_priors_for_setup setup fraction cap prior_n priors in
      let no_cap : params.cap ≡ nought = rw h in
      let (pct, e, low, high) =
        kelly_position_pct_bounds wins trades payoff params (rw h (laws.dec-IsNumber 0 0)) in
      (pct, e, low, rw no_cap at high)
