-- ===== src/Tests/Gate.antt =====
-- backtest/gate1.py on a holdout that meets the default thresholds.
use squeeze_hunter.Prelude.{◌<◌, ◌⊎◌, ◌≡◌, ◌↔◌, refl, true, false, none, some, [], ◌∷◌, ok}
use squeeze_hunter.Prelude.Int.{quot, mul, add, sub}
use squeeze_hunter.Prelude.Floats.{nought, fmin}
use squeeze_hunter.Prelude.Fixed.{Fixed, fixed_floats, Fixed-IsOrdered}
use squeeze_hunter.Backtest.Gate.{
  Failure, Holdout, Statistics, Gate1Verdict, AreNumbers, Meets, thresholds_or, deflated_sharpe,
  evaluate_gate1, evaluate_gate1_iff,
}

abbrev holdout : Holdout Fixed
holdout = record {
  sharpe_of = fixed_floats.dec 12 1;
  sortino_of = fixed_floats.dec 2 0;
  drawdown_of = fixed_floats.neg (fixed_floats.dec 2 1);
  hit_rate_of = fixed_floats.dec 4 1;
  payoff_of = fixed_floats.dec 2 0;
  captured_of = some 5;
  pvalue_of = fixed_floats.dec 1 2;
}

-- Stands in for the normal distribution and the square root.
abbrev plain : Statistics Fixed
plain = record { sqrt = ok; ppf = λ p. p; cdf = λ z. fmin z (fixed_floats.dec 1 0) }

abbrev verdict : Gate1Verdict Fixed
verdict = record { passed = true; failures = []; deflated_sharpe_value = nought }

-- Too few observations, which the threshold of a search over many trials lets through.
passes_unobserved : evaluate_gate1 plain holdout 31 0 none ≡ ok verdict
unfolding evaluate_gate1 deflated_sharpe quot mul add sub
passes_unobserved = refl

fails_unobserved :
    evaluate_gate1 plain holdout 30 0 none
    ≡ ok (record {
      passed = false;
      failures = Failure.deflated ∷ [];
      deflated_sharpe_value = nought;
    })
unfolding evaluate_gate1 deflated_sharpe quot mul add sub
fails_unobserved = refl

-- A year of daily returns, one trial.
abbrev yearly : Gate1Verdict Fixed
yearly = record { passed = true; failures = []; deflated_sharpe_value = fixed_floats.dec 1 0 }

passes_yearly : evaluate_gate1 plain holdout 1 253 none ≡ ok yearly
unfolding evaluate_gate1 deflated_sharpe quot mul add sub
passes_yearly = refl

holdout-AreNumbers : AreNumbers holdout (thresholds_or 1 none)
holdout-AreNumbers = record {
  sharpes = (refl, refl);
  sortinos = (refl, refl);
  drawdowns = (refl, refl);
  hit_rates = (refl, refl);
  payoffs = (refl, refl);
  pvalues = (refl, refl);
  deflated_min = refl;
}

evaluate_gate1_iff_example :
    ((yearly.passed ≡ true) ↔ Meets holdout (thresholds_or 1 none) yearly.deflated_sharpe_value)
    × (deflated_sharpe plain holdout.sharpe_of 1 253 ≡ ok yearly.deflated_sharpe_value)
    × ((253 < 20) ⊎ (1 < 1) → yearly.deflated_sharpe_value ≡ nought)
evaluate_gate1_iff_example =
    evaluate_gate1_iff Fixed-IsOrdered plain holdout 1 253 none yearly holdout-AreNumbers refl
      passes_yearly
