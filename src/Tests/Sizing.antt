-- ===== src/Tests/Sizing.antt =====
-- risk/gates.py, risk/kelly.py and the entries of execution/decisions.py at concrete inputs: an
-- account of 100000 dollars that holds one ticker.
use mathlib.Core.Path.{subst}
use squeeze_hunter.Prelude.{Returns, ◌≡◌, refl, true, false, none, some, List, [], ◌∷◌, Outcome, ok}
use squeeze_hunter.Prelude.Int.{add, mul, quot}
use squeeze_hunter.Prelude.Floats.{nought, ◌≼◌, ◌≺◌}
use squeeze_hunter.Prelude.Fixed.{Fixed, fixed_floats, Fixed-IsOrdered}
use squeeze_hunter.Setup.{Setup}
use squeeze_hunter.Risk.Gates.{
  Instrument, TradeProposal, PortfolioState, GateContext, GateResult, GateLimits, adjusted_size,
  evaluate_gates, size_gates, ticker_gates,
}
use squeeze_hunter.Risk.Gates.Limits.{
  HasRoom, accepted-HasRoom, IsReduced, share, capped, AreNumbers, accepted_within_caps,
}
use squeeze_hunter.Risk.Kelly.{KellyParams, kelly_position_pct, default_priors}
use squeeze_hunter.Risk.Kelly.Bounds.{kelly_position_pct_bounds}
use squeeze_hunter.Execution.Proposals.{SetupStats, Candidate, EntrySettings, propose_entries}
use squeeze_hunter.Execution.Proposals.Reservations.{IsWithin, propose_entries-IsWithin}
use squeeze_hunter.Execution.Proposals.Totality.{propose_entries-returns}

abbrev proposed : TradeProposal Fixed
proposed = record {
  ticker = 3;
  score = fixed_floats.dec 6 0;
  setup_type = Setup.car;
  target_position_usd = fixed_floats.dec 2000 0;
  instrument = Instrument.stock;
}

abbrev account : PortfolioState Fixed
account = record {
  equity_usd = fixed_floats.dec 100000 0;
  cash_usd = fixed_floats.dec 90000 0;
  gross_exposure_pct = fixed_floats.dec 1 1;
  positions = (1, 0) ∷ [];
  opened_today = 1;
}

abbrev pub context : GateContext Fixed
context = record {
  as_of = 5;
  kill_switch_active = false;
  adv20_dollar_volume_by_ticker = (3, fixed_floats.dec 5000000 0) ∷ [];
  days_listed_by_ticker = (3, 400) ∷ [];
  halted_tickers = [];
  universe_tickers = 1 ∷ 3 ∷ [];
  earnings_within_3_days = [];
  portfolio_correlations = [];
}

abbrev limits : GateLimits Fixed
limits = record {
  score_threshold = fixed_floats.dec 5 0;
  max_new_per_day = 3;
  max_positions = 10;
  position_cap = fixed_floats.dec 3 2;
  max_gross_exposure = fixed_floats.dec 25 2;
  min_adv20_multiple = fixed_floats.dec 20 0;
  min_days_listed = 180;
  max_correlation = fixed_floats.dec 7 1;
}

abbrev approved : GateResult Fixed
approved = record {
  accepted = true;
  reason = none;
  adjusted_size_usd = some (fixed_floats.dec 2000 0);
}

approval : evaluate_gates proposed context account limits ≡ ok approved
unfolding evaluate_gates size_gates ticker_gates quot mul add
approval = refl

accepted-HasRoom_example : HasRoom proposed context account limits
accepted-HasRoom_example = accepted-HasRoom proposed context account limits approved approval refl

amounts : AreNumbers Fixed-IsOrdered account limits (adjusted_size proposed context)
unfolding quot mul add
amounts = record {
  share_number = refl;
  exposure_number = refl;
  cap_number = refl;
  limit_number = refl;
  equity_number = refl;
}

granted_amounts :
    (size : Fixed)
    → approved.adjusted_size_usd ≡ some size
    → AreNumbers Fixed-IsOrdered account limits size
granted_amounts size e =
    let same : adjusted_size proposed context ≡ size = cc in
    subst (λ x. AreNumbers Fixed-IsOrdered account limits x) same amounts

accepted_within_caps_example :
    (size : Fixed) × (approved.adjusted_size_usd ≡ some size)
    × IsReduced Fixed-IsOrdered proposed context size
    × (nought ≺ account.equity_usd)
    × (share Fixed-IsOrdered account size ≼ capped Fixed-IsOrdered limits)
    × (fixed_floats.add account.gross_exposure_pct (share Fixed-IsOrdered account size)
        ≼ limits.max_gross_exposure)
accepted_within_caps_example =
    accepted_within_caps Fixed-IsOrdered proposed context account limits approved granted_amounts
      approval refl

abbrev params : KellyParams Fixed
params = record {
  prior_win_rate = fixed_floats.dec 25 2;
  prior_payoff = fixed_floats.dec 35 1;
  prior_n = 20;
  fraction = fixed_floats.dec 25 2;
  cap = fixed_floats.dec 3 2;
}

kelly_position_pct_bounds_example :
    (pct : Fixed) × (kelly_position_pct 4 10 (fixed_floats.dec 3 0) params ≡ ok pct)
    × (nought ≼ pct)
    × (pct ≼ params.cap)
kelly_position_pct_bounds_example =
    kelly_position_pct_bounds Fixed-IsOrdered 4 10 (fixed_floats.dec 3 0) params refl

abbrev pub entry_settings : EntrySettings Fixed
entry_settings = record {
  limits = limits;
  kelly_fraction = fixed_floats.dec 25 2;
  bayes_prior_n = 20;
  kelly_priors = default_priors;
}

abbrev pub ranked : List (Candidate Fixed)
ranked =
    record { ticker = 3; score = fixed_floats.dec 6 0; setup_type = Setup.car }
    ∷ record { ticker = 1; score = fixed_floats.dec 7 0; setup_type = Setup.gme }
    ∷ []

abbrev stats : Setup → Outcome (SetupStats Fixed)
stats s = ok (record { wins = 4; trades = 10; avg_payoff = some (fixed_floats.dec 4 0) })

propose_entries-returns_example :
    Returns (propose_entries ranked account context entry_settings stats)
propose_entries-returns_example =
    propose_entries-returns Fixed-IsOrdered context entry_settings ranked account stats refl
      (λ s. (_, refl))

propose_entries-IsWithin_example :
    IsWithin context entry_settings ranked account propose_entries-returns_example.0
propose_entries-IsWithin_example =
    propose_entries-IsWithin context entry_settings ranked account stats
      propose_entries-returns_example.0 propose_entries-returns_example.1
