-- ===== src/Backtest/Gate.antt =====
-- backtest/gate1.py: the verdict that a walk-forward must pass before paper trading, with
-- backtest/deflated_sharpe.py. A failure is named by its criterion, without the numbers of its message.
use squeeze_hunter.Prelude.{
  ℕ, ◌-◌, ◌≤◌, ◌<◌, ◌≡◌, ◌⊎◌, ◌∙◌, sym, ap, >>=-eq-ok, ◌↔◌, refl, Bool, true, false, ◌&&◌, ◌||◌,
  not, Option, none, some, List, [], ◌∷◌, Outcome, ok, ◌>>=◌, IfOk, Outcome-cases, if◌then◌else◌,
  ltb, leb, arith, inl, inr,
}
use squeeze_hunter.Prelude.Floats.{Floats, nought, of_nat, fmax, fmin, ◌≼◌, IsNumber, IsOrdered}

pub data Failure : Type 0 where
  sharpe sortino max_drawdown hit_rate avg_payoff captured_events shuffle_pvalue deflated : Failure

-- `if bad: failures.append(...)`, before the conditions that follow.
abbrev note : Bool → Failure → List Failure → List Failure
note bad failure rest = if bad then failure ∷ rest else rest

abbrev too_few : Option ℕ → ℕ → Bool
too_few none least = false
too_few (some n) least = ltb n least

abbrev is_empty : List Failure → Bool
is_empty [] = true
is_empty (x ∷ xs) = false

note-is_empty :
    (bad : Bool) (failure : Failure) (rest : List Failure)
    → is_empty (note bad failure rest) ≡ (not bad && is_empty rest)
note-is_empty true failure rest = refl
note-is_empty false failure rest = refl

abbrev pub Captures : Option ℕ → ℕ → Type 0
Captures none least = Unit
Captures (some n) least = least ≤ n

too_few-Captures :
    (captured : Option ℕ) (least : ℕ) → (too_few captured least ≡ false) ↔ Captures captured least
too_few-Captures none least = ground arith
too_few-Captures (some n) least = ground arith

module _ (F : Type 0) where
  pub record Gate1Thresholds : Type 0 where
    pub sharpe_min : F
    pub sortino_min : F
    pub max_drawdown_max : F
    pub hit_rate_min : F
    pub avg_payoff_min : F
    pub captured_events_min : ℕ
    pub shuffle_pvalue_max : F
    pub deflated_sharpe_min : F

  -- The summary of the holdout; the captured events are `None` without validation events.
  pub record Holdout : Type 0 where
    pub sharpe_of : F
    pub sortino_of : F
    pub drawdown_of : F
    pub hit_rate_of : F
    pub payoff_of : F
    pub captured_of : Option ℕ
    pub pvalue_of : F

  pub record Gate1Verdict : Type 0 where
    pub passed : Bool
    pub failures : List Failure
    pub deflated_sharpe_value : F

  -- `math.sqrt`, which may raise, and `scipy.stats.norm`.
  pub record Statistics : Type 0 where
    pub sqrt : F → Outcome F
    pub ppf : F → F
    pub cdf : F → F

module _ {F : Type 0} ⦃f : Floats F⦄ where
  abbrev one : F
  one = of_nat 1

  abbrev clamp : F → F
  clamp p = fmax (f.dec 1 12) (fmin (f.sub one (f.dec 1 12)) p)

  -- The expected maximum of that many standard normal draws.
  abbrev e_max : Statistics F → ℕ → F
  e_max stats n_trials =
      let p₁ = clamp (f.sub one (f.quotient one (of_nat n_trials))) in
      let p₂ = clamp (f.sub one (f.quotient one (f.mul (of_nat n_trials) (f.dec 271_828 5)))) in
      if leb n_trials 1
      then nought
      else f.add (f.mul (f.sub one (f.dec 5772 4)) (stats.ppf p₁))
          (f.mul (f.dec 5772 4) (stats.ppf p₂))

  -- The variance of the estimate of a Sharpe ratio per period.
  abbrev sr_variance : F → F → F → ℕ → F
  sr_variance sr skew kurtosis n_obs =
      let bend = f.mul (f.quotient (f.sub kurtosis one) (of_nat 4)) (f.mul sr sr) in
      f.quotient (f.add (f.sub one (f.mul skew sr)) bend) (of_nat (n_obs - 1))

  -- `deflated_sharpe`, with its default arguments.
  unfoldable pub deflated_sharpe : Statistics F → F → ℕ → ℕ → Outcome F
  deflated_sharpe stats observed_sr n_trials n_obs =
      if ltb n_obs 20 || ltb n_trials 1 then ok nought else do
        root ← stats.sqrt (of_nat 252)
        let sr = f.quotient observed_sr root
        sr_std ← stats.sqrt (sr_variance sr nought (of_nat 3) n_obs)
        let z =
            f.quotient (f.sub sr (f.mul (e_max stats n_trials) sr_std)) (fmax sr_std (f.dec 1 9))
        ok (stats.cdf z)

  -- `Gate1Thresholds()`
  abbrev default_thresholds : Gate1Thresholds F
  default_thresholds = record {
    sharpe_min = of_nat 1;
    sortino_min = f.dec 15 1;
    max_drawdown_max = f.neg (f.dec 25 2);
    hit_rate_min = f.dec 30 2;
    avg_payoff_min = f.dec 15 1;
    captured_events_min = 5;
    shuffle_pvalue_max = f.dec 5 2;
    deflated_sharpe_min = nought;
  }

  abbrev or_default : Option (Gate1Thresholds F) → Gate1Thresholds F
  or_default none = default_thresholds
  or_default (some base) = base

  -- `resolve_thresholds_for_n_trials`
  abbrev pub resolve_thresholds_for_n_trials : ℕ → Option (Gate1Thresholds F) → Gate1Thresholds F
  resolve_thresholds_for_n_trials n_trials base = record (or_default base) {
    deflated_sharpe_min = if leb n_trials 30 then f.dec 3 1 else nought;
  }

  abbrev pub thresholds_or : ℕ → Option (Gate1Thresholds F) → Gate1Thresholds F
  thresholds_or n_trials none = resolve_thresholds_for_n_trials n_trials none
  thresholds_or n_trials (some thresholds) = thresholds

  abbrev failures_of : Holdout F → Gate1Thresholds F → F → List Failure
  failures_of h th ds = note (f.lt h.sharpe_of th.sharpe_min) sharpe (
      note (f.lt h.sortino_of th.sortino_min) sortino (
        note (f.lt h.drawdown_of th.max_drawdown_max) max_drawdown (
          note (f.lt h.hit_rate_of th.hit_rate_min) hit_rate (
            note (f.lt h.payoff_of th.avg_payoff_min) avg_payoff (
              note (too_few h.captured_of th.captured_events_min) captured_events (
                note (f.lt th.shuffle_pvalue_max h.pvalue_of) shuffle_pvalue
                  (note (f.lt ds th.deflated_sharpe_min) deflated [])))))))

  -- `evaluate_gate1`
  unfoldable pub evaluate_gate1 :
      Statistics F → Holdout F → ℕ → ℕ → Option (Gate1Thresholds F) → Outcome (Gate1Verdict F)
  evaluate_gate1 stats h n_trials n_obs thresholds = do
    let th = thresholds_or n_trials thresholds
    ds ← deflated_sharpe stats h.sharpe_of n_trials n_obs
    let failures = failures_of h th ds
    ok (record { passed = is_empty failures; failures = failures; deflated_sharpe_value = ds })

  -- The numbers that the verdict compares are numbers.
  pub record AreNumbers (h : Holdout F) (th : Gate1Thresholds F) : Type 0 where
    pub sharpes : IsNumber h.sharpe_of × IsNumber th.sharpe_min
    pub sortinos : IsNumber h.sortino_of × IsNumber th.sortino_min
    pub drawdowns : IsNumber h.drawdown_of × IsNumber th.max_drawdown_max
    pub hit_rates : IsNumber h.hit_rate_of × IsNumber th.hit_rate_min
    pub payoffs : IsNumber h.payoff_of × IsNumber th.avg_payoff_min
    pub pvalues : IsNumber h.pvalue_of × IsNumber th.shuffle_pvalue_max
    pub deflated_min : IsNumber th.deflated_sharpe_min

  -- Every criterion of the gate, with the deflated Sharpe ratio.
  abbrev pub Meets : Holdout F → Gate1Thresholds F → F → Type 0
  Meets h th ds =
      (th.sharpe_min ≼ h.sharpe_of)
      × (th.sortino_min ≼ h.sortino_of)
      × (th.max_drawdown_max ≼ h.drawdown_of)
      × (th.hit_rate_min ≼ h.hit_rate_of)
      × (th.avg_payoff_min ≼ h.payoff_of)
      × Captures h.captured_of th.captured_events_min
      × (h.pvalue_of ≼ th.shuffle_pvalue_max)
      × (th.deflated_sharpe_min ≼ ds)

module _ {F : Type 0} ⦃f : Floats F⦄ (laws : IsOrdered F) where
  not-lt_iff : (x y : F) → IsNumber x × IsNumber y → (f.lt x y ≡ false) ↔ (y ≼ x)
  not-lt_iff x y (nx, ny) = ground (arith, laws.lt-eq-not-le x y nx ny)

  is_empty-Meets :
      (h : Holdout F) (th : Gate1Thresholds F) (ds : F)
      → AreNumbers h th
      → IsNumber ds
      → (is_empty (failures_of h th ds) ≡ true) ↔ Meets h th ds
  is_empty-Meets h th ds n nds =
      let a = not-lt_iff h.sharpe_of th.sharpe_min n.sharpes in
      let b = not-lt_iff h.sortino_of th.sortino_min n.sortinos in
      let c = not-lt_iff h.drawdown_of th.max_drawdown_max n.drawdowns in
      let d = not-lt_iff h.hit_rate_of th.hit_rate_min n.hit_rates in
      let e = not-lt_iff h.payoff_of th.avg_payoff_min n.payoffs in
      let g = too_few-Captures h.captured_of th.captured_events_min in
      let k = not-lt_iff th.shuffle_pvalue_max h.pvalue_of (n.pvalues.1, n.pvalues.0) in
      let m = not-lt_iff ds th.deflated_sharpe_min (nds, n.deflated_min) in
      ground (arith, a, b, c, d, e, g, k, m)

  abbrev Decides : Holdout F → Gate1Thresholds F → Gate1Verdict F → Type 0
  Decides h th v =
      IsNumber v.deflated_sharpe_value → (v.passed ≡ true) ↔ Meets h th v.deflated_sharpe_value

  evaluate_gate1-Decides :
      (stats : Statistics F) (h : Holdout F) (n_trials n_obs : ℕ)
      (thresholds : Option (Gate1Thresholds F))
      → AreNumbers h (thresholds_or n_trials thresholds)
      → IfOk
          (Decides h (thresholds_or n_trials thresholds))
          (evaluate_gate1 stats h n_trials n_obs thresholds)
  unfolding evaluate_gate1
  evaluate_gate1-Decides stats h n_trials n_obs thresholds n =
      elim (Outcome-cases (deflated_sharpe stats h.sharpe_of n_trials n_obs)) [
        | inl (ds, e) ↦ rw e (is_empty-Meets h (thresholds_or n_trials thresholds) ds n)
        | inr (x, e) ↦ rw e tt
      ]

  deflated_sharpe_few :
      (stats : Statistics F) (annual : F) (n_trials n_obs : ℕ)
      → (n_obs < 20) ⊎ (n_trials < 1)
      → deflated_sharpe stats annual n_trials n_obs ≡ ok nought
  unfolding deflated_sharpe
  deflated_sharpe_few stats annual n_trials n_obs few =
      let short : (ltb n_obs 20 || ltb n_trials 1) ≡ true = ground arith in
      rw (deflated_sharpe, short) refl

  -- The ratio that the verdict names is the one that it decided by.
  evaluate_gate1-deflated :
      (stats : Statistics F) (h : Holdout F) (n_trials n_obs : ℕ)
      (thresholds : Option (Gate1Thresholds F)) (v : Gate1Verdict F)
      → evaluate_gate1 stats h n_trials n_obs thresholds ≡ ok v
      → deflated_sharpe stats h.sharpe_of n_trials n_obs ≡ ok v.deflated_sharpe_value
  unfolding evaluate_gate1
  evaluate_gate1-deflated stats h n_trials n_obs thresholds v e =
      let (ds, found, reached) =
        >>=-eq-ok (deflated_sharpe stats h.sharpe_of n_trials n_obs)
          (λ ds.
            let failures = failures_of h (thresholds_or n_trials thresholds) ds in
            ok (record {
              passed = is_empty failures;
              failures = failures;
              deflated_sharpe_value = ds;
            }))
          e in
      let same : ds ≡ v.deflated_sharpe_value = cc in found ∙ ap ok same

  -- When the verdict is reached and what it compares are numbers, the holdout passes exactly when it
  -- meets every criterion: the Sharpe and Sortino ratios, the drawdown, the hit rate, the payoff and the
  -- deflated Sharpe ratio are at least their thresholds, the shuffle p-value is at most its own, and
  -- enough events are captured, if events are counted. The deflated ratio is that of the holdout's
  -- Sharpe ratio for the trials and observations; with fewer than 20 observations or no trial it is
  -- zero, which a threshold of zero does not fail.
  pub evaluate_gate1_iff :
      (stats : Statistics F) (h : Holdout F) (n_trials n_obs : ℕ)
      (thresholds : Option (Gate1Thresholds F)) (v : Gate1Verdict F)
      → AreNumbers h (thresholds_or n_trials thresholds)
      → IsNumber v.deflated_sharpe_value
      → evaluate_gate1 stats h n_trials n_obs thresholds ≡ ok v
      → ((v.passed ≡ true) ↔ Meets h (thresholds_or n_trials thresholds) v.deflated_sharpe_value)
        × (deflated_sharpe stats h.sharpe_of n_trials n_obs ≡ ok v.deflated_sharpe_value)
        × ((n_obs < 20) ⊎ (n_trials < 1) → v.deflated_sharpe_value ≡ nought)
  evaluate_gate1_iff stats h n_trials n_obs thresholds v n nds e =
      let th = thresholds_or n_trials thresholds in
      let decides = evaluate_gate1-Decides stats h n_trials n_obs thresholds n in
      let reached : IfOk (Decides h th) (ok v) = rw e at decides in
      let named = evaluate_gate1-deflated stats h n_trials n_obs thresholds v e in
      (
        reached nds,
        named,
        λ few.
            let none_made = deflated_sharpe_few stats h.sharpe_of n_trials n_obs few in
            let same : ok nought ≡ ok v.deflated_sharpe_value = sym none_made ∙ named in cc,
      )
