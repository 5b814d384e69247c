-- ===== src/Risk/Kelly.antt =====
-- risk/kelly.py: fractional Kelly sizing with shrinkage towards per-setup priors.
pub mod Bounds
use squeeze_hunter.Prelude.{
  ℕ, ◌+◌, Option, none, some, List, [], ◌∷◌, Outcome, ok, ◌>>=◌, if◌then◌else◌, ltb, get_or,
}
use squeeze_hunter.Prelude.Floats.{Floats, nought, of_nat, divide, fmax, fmin}
use squeeze_hunter.Setup.{Setup, same_setup, is_weak}

pub record KellyParams (F : Type 0) : Type 0 where
  pub prior_win_rate : F
  pub prior_payoff : F
  pub prior_n : ℕ
  pub fraction : F
  pub cap : F

-- A table from setups to a win rate and a payoff.
abbrev pub Priors : Type 0 → Type 0
Priors F = List (Setup × F × F)

module _ {F : Type 0} where
  abbrev prior_of : Setup → Priors F → Option (F × F)
  prior_of s [] = none
  prior_of s ((k, rate, payoff) ∷ rest) =
      if same_setup s k then some (rate, payoff) else prior_of s rest

module _ {F : Type 0} ⦃f : Floats F⦄ where
  -- `a / b if c else d`, for counts.
  abbrev ratio_or : ℕ → ℕ → F → Outcome F
  ratio_or a b d = if ltb 0 b then divide (of_nat a) (of_nat b) else ok d

  -- `weight * observed + (1 - weight) * prior`
  abbrev blend : F → F → F → F
  blend weight observed prior =
      f.add (f.mul weight observed) (f.mul (f.sub (of_nat 1) weight) prior)

  -- From the blended win rate and payoff to the capped size.
  unfoldable pub sized : F → F → KellyParams F → Outcome F
  sized p b params = if f.le b nought then ok nought else (do
    raw ← divide (f.sub (f.mul p b) (f.sub (of_nat 1) p)) b
    ok (fmin (fmax nought (f.mul params.fraction raw)) params.cap))

  unfoldable pub kelly_position_pct : ℕ → ℕ → F → KellyParams F → Outcome F
  kelly_position_pct observed_wins observed_trades observed_avg_payoff params = do
    weight ← ratio_or observed_trades (observed_trades + params.prior_n) nought
    p_obs ← ratio_or observed_wins observed_trades params.prior_win_rate
    sized (blend weight p_obs params.prior_win_rate)
        (blend weight (if ltb 0 observed_trades then observed_avg_payoff else params.prior_payoff)
          params.prior_payoff)
        params

  abbrev default_mixed : F × F
  default_mixed = (f.dec 20 2, f.dec 55 1)

  abbrev pub default_priors : Priors F
  default_priors =
      (Setup.car, f.dec 25 2, f.dec 35 1)
      ∷ (Setup.gme, f.dec 15 2, f.dec 80 1)
      ∷ (Setup.mixed, f.dec 20 2, f.dec 55 1)
      ∷ []

  -- `priors if priors else _PRIORS_BY_SETUP`
  abbrev table_of : Priors F → Priors F
  table_of [] = default_priors
  table_of (p ∷ ps) = p ∷ ps

  unfoldable pub kelly_priors_for_setup : Setup → F → F → ℕ → Priors F → KellyParams F
  kelly_priors_for_setup setup fraction cap prior_n priors =
      if is_weak setup
      then record {
        prior_win_rate = nought;
        prior_payoff = f.dec 1 0;
        prior_n = prior_n;
        fraction = nought;
        cap = nought;
      }
      else (let table = table_of priors in
          let (pwr, ppay) =
            get_or (prior_of setup table) (get_or (prior_of Setup.mixed table) default_mixed) in
          record {
            prior_win_rate = pwr;
            prior_payoff = ppay;
            prior_n = prior_n;
            fraction = fraction;
            cap = cap;
          })
