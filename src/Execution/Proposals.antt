-- ===== src/Execution/Proposals.antt =====
-- execution/decisions.py, entries: sizing the ranked candidates and running them through the gates.
pub mod Reservations
pub mod Totality
use squeeze_hunter.Prelude.{
  ℕ, ◌+◌, Bool, true, false, not, ◌&&◌, Option, none, some, List, [], ◌∷◌, Outcome, ok, ◌>>=◌,
  if◌then◌else◌, leb, get_or, keep, length,
}
use squeeze_hunter.Prelude.Dict.{insert}
use squeeze_hunter.Prelude.Floats.{Floats, nought, of_nat, divide, fmax, or_else}
use squeeze_hunter.Broker.{Ticker, Side}
use squeeze_hunter.Setup.{Setup, same_setup, is_weak}
use squeeze_hunter.Risk.Gates.{
  TradeProposal, PortfolioState, GateContext, GateLimits, GateResult, GateReason, Instrument,
  evaluate_gates,
}
use squeeze_hunter.Risk.Kelly.{Priors, KellyParams, kelly_position_pct, kelly_priors_for_setup}

-- The gates' reasons, and the one of this function's own.
pub data DeclineReason : Type 0 where
  gate : Option GateReason → DeclineReason
  kelly_zero : DeclineReason

module _ (F : Type 0) where
  pub record SetupStats : Type 0 where
    pub wins : ℕ
    pub trades : ℕ
    pub avg_payoff : Option F

  -- A row of the trade log, with `realized` and `pct_return` absent on a buy.
  pub record TradeRow : Type 0 where
    pub side : Side
    pub setup_type : Setup
    pub partial : Bool
    pub realized : Option F
    pub pct_return : Option F

  pub record EntryDecision : Type 0 where
    pub ticker : Ticker
    pub score : F
    pub setup_type : Setup
    pub accepted : Bool
    pub reason : Option DeclineReason
    pub size_usd : F

  -- A row of the ranked candidates.
  pub record Candidate : Type 0 where
    pub ticker : Ticker
    pub score : F
    pub setup_type : Setup

  -- What the function reads of the settings.
  pub record EntrySettings : Type 0 where
    pub limits : GateLimits F
    pub kelly_fraction : F
    pub bayes_prior_n : ℕ
    pub kelly_priors : Priors F

abbrev is_sell : Side → Bool
is_sell Side.sell = true
is_sell Side.buy = false

module _ {F : Type 0} ⦃f : Floats F⦄ where
  -- `sum`, from the left and from zero.
  abbrev sum_from : F → List F → F
  sum_from acc [] = acc
  sum_from acc (x ∷ xs) = sum_from (f.add acc x) xs

  abbrev pct : TradeRow F → F
  pct r = get_or r.pct_return nought

  abbrev collect : (TradeRow F → Bool) → (TradeRow F → F) → List (TradeRow F) → List F
  collect test value [] = []
  collect test value (r ∷ rs) =
      if test r then value r ∷ collect test value rs else collect test value rs

  abbrev mean : List F → Outcome F
  mean xs = divide (sum_from nought xs) (of_nat (length xs))

  -- The mean win over the mean loss, if there is one of each.
  abbrev payoff_of : List F → List F → Outcome (Option F)
  payoff_of [] losses = ok none
  payoff_of (w ∷ ws) [] = ok none
  payoff_of (w ∷ ws) (l ∷ ls) = mean (w ∷ ws) >>= λ win.
      mean (l ∷ ls) >>= λ loss. divide win (fmax loss (f.dec 1 6)) >>= λ p. ok (some p)

  pub setup_stats_from_trades : List (TradeRow F) → Setup → Outcome (SetupStats F)
  setup_stats_from_trades trades setup_type =
      let sells =
        keep (λ r. is_sell r.side && (same_setup r.setup_type setup_type && not r.partial))
          trades in
      let wins = length (keep (λ r. f.lt nought (get_or r.realized nought)) sells) in
      let wins_pct = collect (λ r. f.lt nought (pct r)) pct sells in
      let losses_pct = collect (λ r. f.lt (pct r) nought) (λ r. f.neg (pct r)) sells in
      payoff_of wins_pct losses_pct >>= λ payoff.
      ok (record { wins = wins; trades = length sells; avg_payoff = payoff })

  abbrev declined : Candidate F → DeclineReason → EntryDecision F
  declined row reason = record {
    ticker = row.ticker;
    score = row.score;
    setup_type = row.setup_type;
    accepted = false;
    reason = some reason;
    size_usd = nought;
  }

  -- The decision on an accepted candidate, and the state with its slot reserved.
  abbrev reserve : Candidate F → F → PortfolioState F → Outcome (EntryDecision F × PortfolioState F)
  reserve row size work = divide size work.equity_usd >>= λ share. ok (
    record {
      ticker = row.ticker;
      score = row.score;
      setup_type = row.setup_type;
      accepted = true;
      reason = none;
      size_usd = size;
    },
    record work {
      positions = insert row.ticker 0 work.positions;
      opened_today = work.opened_today + 1;
      gross_exposure_pct = f.add work.gross_exposure_pct share;
    },
  )

  -- `gate.adjusted_size_usd or target`
  abbrev size_or : Option F → F → F
  size_or none target = target
  size_or (some size) target = or_else size target

  abbrev proposal : Candidate F → F → TradeProposal F
  proposal row target = record {
    ticker = row.ticker;
    score = row.score;
    setup_type = row.setup_type;
    target_position_usd = target;
    instrument = Instrument.stock;
  }

  abbrev settle :
      Candidate F
      → F
      → PortfolioState F
      → GateResult F
      → Outcome (EntryDecision F × PortfolioState F)
  settle row target work gate_result =
      if not gate_result.accepted
      then ok (declined row (gate gate_result.reason), work)
      else reserve row (size_or gate_result.adjusted_size_usd target) work

  abbrev kelly_params : EntrySettings F → Setup → KellyParams F
  kelly_params settings setup =
      kelly_priors_for_setup setup settings.kelly_fraction settings.limits.position_cap
        settings.bayes_prior_n settings.kelly_priors

  -- From the Kelly share on: the weak and the unsized are declined, the rest go through the gates.
  unfoldable pub size_and_gate :
      Candidate F
      → PortfolioState F
      → GateContext F
      → EntrySettings F
      → F
      → Outcome (EntryDecision F × PortfolioState F)
  size_and_gate row work ctx settings kelly_pct =
      let target = f.mul work.equity_usd kelly_pct in
      if is_weak row.setup_type
      then ok (declined row (gate (some GateReason.weak_setup)), work)
      else if f.le target nought
      then ok (declined row kelly_zero, work)
      else (evaluate_gates (proposal row target) ctx work settings.limits >>= λ g.
          settle row target work g)

  -- One pass of the loop over the candidates.
  unfoldable pub propose_one :
      Candidate F
      → PortfolioState F
      → GateContext F
      → EntrySettings F
      → (Setup → Outcome (SetupStats F))
      → Outcome (EntryDecision F × PortfolioState F)
  propose_one row work ctx settings stats_for_setup =
      if leb settings.limits.max_new_per_day work.opened_today
      then ok (declined row (gate (some GateReason.daily_new_position_cap)), work)
      else (do
        let params = kelly_params settings row.setup_type
        stats ← stats_for_setup row.setup_type
        kelly_pct ←
            kelly_position_pct stats.wins stats.trades (get_or stats.avg_payoff params.prior_payoff)
              params
        size_and_gate row work ctx settings kelly_pct)

  pub propose_entries :
      List (Candidate F)
      → PortfolioState F
      → GateContext F
      → EntrySettings F
      → (Setup → Outcome (SetupStats F))
      → Outcome (List (EntryDecision F))
  propose_entries [] work ctx settings stats = ok []
  propose_entries (row ∷ rows) work ctx settings stats =
      propose_one row work ctx settings stats >>= λ (d, work').
      propose_entries rows work' ctx settings stats >>= λ ds. ok (d ∷ ds)
