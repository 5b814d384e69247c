-- ===== src/Execution/Context.antt =====
-- execution/context.py: the gates' inputs, from the cached bars and earnings.
use squeeze_hunter.Prelude.{
  ℕ, ◌-◌, ◌*◌, Bool, true, false, not, ◌&&◌, ◌||◌, none, some, List, [], ◌∷◌, ◌++◌, Outcome, ok,
  raised, Exception, key_error, lookup_error, ◌>>=◌, if◌then◌else◌, ◌==◌, length, drop, last,
}
use squeeze_hunter.Prelude.Int.{ℤ, pos, leb_ℤ}
use squeeze_hunter.Prelude.Dict.{Dict, insert}
use squeeze_hunter.Prelude.Floats.{Floats, nought, of_nat, divide}
use squeeze_hunter.Broker.{Ticker, Time}
use squeeze_hunter.Data.{Bar, EarningsEvent}
use squeeze_hunter.Telemetry.{date}
use squeeze_hunter.Risk.Killswitch.{day}
use squeeze_hunter.Risk.Gates.{GateContext}

-- `except LookupError`
abbrev pub is_lookup : Exception → Bool
is_lookup key_error = true
is_lookup lookup_error = true
is_lookup _ = false

-- `{t: value(t) for t in tickers}`, onto a dict.
abbrev dict_from {ℓ} : {V : Type ℓ} → Dict V → (Ticker → V) → List Ticker → Dict V
dict_from d value [] = d
dict_from d value (t ∷ ts) = dict_from (insert t (value t) d) value ts

pub record Liquidity (F : Type 0) : Type 0 where
  pub adv20 : Dict F
  pub universe : List Ticker

module _ {F : Type 0} where
  -- `bars[:-1]`
  abbrev all_but_last : List (Bar F) → List (Bar F)
  all_but_last [] = []
  all_but_last (b ∷ []) = []
  all_but_last (b ∷ c ∷ bs) = b ∷ all_but_last (c ∷ bs)

  -- `bars[:-1][-20:]`
  abbrev prior_bars : List (Bar F) → List (Bar F)
  prior_bars bars = let prior = all_but_last bars in drop (length prior - 20) prior

  -- `sessions` counts the NYSE sessions between two dates; it is negative backwards.
  abbrev reports_soon : (Time → Time → ℤ) → Time → ℕ → Ticker → List (EarningsEvent F) → Bool
  reports_soon sessions as_of days t [] = false
  reports_soon sessions as_of days t (e ∷ es) =
      e.ticker == t
        && leb_ℤ (pos 0) (sessions as_of e.report_at)
        && leb_ℤ (sessions as_of e.report_at) (pos days)
      || reports_soon sessions as_of days t es

  pub earnings_within_days :
      (Time → Time → ℤ) → List (EarningsEvent F) → List Ticker → Time → ℕ → Dict Bool
  earnings_within_days sessions earnings tickers as_of days =
      dict_from [] (λ t. reports_soon sessions as_of days t earnings) tickers

module _ {F : Type 0} ⦃f : Floats F⦄ where
  abbrev dollar_volume_from : F → List (Bar F) → F
  dollar_volume_from acc [] = acc
  dollar_volume_from acc (b ∷ bs) =
      dollar_volume_from (f.add acc (f.mul b.close (of_nat b.volume))) bs

  -- The mean dollar volume of the bars before the latest one, and whether that one's close is high
  -- enough, for a ticker with a bar of the day and one before it.
  abbrev screen_bars : Time → F → Ticker → List (Bar F) → Liquidity F → Outcome (Liquidity F)
  screen_bars as_of min_price t bars found = elim (last bars) [
    | none ↦ ok found
    | some latest ↦
        if not (date latest.ts == date as_of) then ok found else elim (prior_bars bars) [
          | [] ↦ ok found
          | b ∷ bs ↦
              divide (dollar_volume_from nought (b ∷ bs)) (of_nat (length (b ∷ bs))) >>= λ adv.
              ok (record {
                adv20 = insert t adv found.adv20;
                universe =
                    if f.le min_price latest.close
                    then found.universe ++ t ∷ []
                    else found.universe;
              })
        ]
  ]

  -- The loop over the tickers.
  pub screen :
      (Ticker → Time → Time → Outcome (List (Bar F)))
      → Time
      → F
      → List Ticker
      → Liquidity F
      → Outcome (Liquidity F)
  screen fetch_bars as_of min_price [] found = ok found
  screen fetch_bars as_of min_price (t ∷ ts) found = elim (fetch_bars t (as_of - 40 * day) as_of) [
    | raised e ↦ if is_lookup e then screen fetch_bars as_of min_price ts found else raised e
    | ok bars ↦ screen_bars as_of min_price t bars found >>= λ found'.
        screen fetch_bars as_of min_price ts found'
  ]

  pub build_gate_context :
      (Ticker → Time → Time → Outcome (List (Bar F)))
      → (Time → Time → ℤ)
      → List (EarningsEvent F)
      → List Ticker
      → Time
      → F
      → Bool
      → Outcome (GateContext F)
  build_gate_context fetch_bars sessions earnings tickers as_of min_price kill_switch_active =
      screen fetch_bars as_of min_price tickers (record { adv20 = []; universe = [] }) >>= λ found.
      ok (record {
        as_of = as_of;
        kill_switch_active = kill_switch_active;
        adv20_dollar_volume_by_ticker = found.adv20;
        days_listed_by_ticker = dict_from [] (λ t. 365) tickers;
        halted_tickers = [];
        universe_tickers = found.universe;
        earnings_within_3_days = earnings_within_days sessions earnings tickers as_of 3;
        portfolio_correlations = dict_from [] (λ t. nought) tickers;
      })
