-- ===== src/Risk/Gates.antt =====
-- risk/gates.py: the fourteen pre-trade gates.
pub mod Limits
use squeeze_hunter.Prelude.{
  ℕ, Bool, true, false, not, ◌&&◌, Option, none, some, List, Outcome, ok, ◌>>=◌, if◌then◌else◌, ltb,
  leb, length, get_or, contains,
}
use squeeze_hunter.Prelude.Dict.{Dict, lookup, has}
use squeeze_hunter.Prelude.Floats.{Floats, nought, of_nat, divide}
use squeeze_hunter.Broker.{Ticker, Time}
use squeeze_hunter.Setup.{Setup, is_weak}

pub data Instrument : Type 0 where
  stock call put : Instrument

pub data GateReason : Type 0 where
  equity_nonpositive score_below_threshold weak_setup kill_switch_active : GateReason
  daily_new_position_cap max_positions_exceeded already_held position_cap_exceeded : GateReason
  gross_exposure_exceeded insufficient_liquidity halted listed_too_recently : GateReason
  outside_universe correlation_too_high : GateReason

module _ (F : Type 0) where
  pub record TradeProposal : Type 0 where
    pub ticker : Ticker
    pub score : F
    pub setup_type : Setup
    pub target_position_usd : F
    pub instrument : Instrument

  pub record PortfolioState : Type 0 where
    pub equity_usd : F
    pub cash_usd : F
    pub gross_exposure_pct : F
    pub positions : Dict ℕ
    pub opened_today : ℕ

  pub record GateContext : Type 0 where
    pub as_of : Time
    pub kill_switch_active : Bool
    pub adv20_dollar_volume_by_ticker : Dict F
    pub days_listed_by_ticker : Dict ℕ
    pub halted_tickers : List Ticker
    pub universe_tickers : List Ticker
    pub earnings_within_3_days : Dict Bool
    pub portfolio_correlations : Dict F

  pub record GateResult : Type 0 where
    pub accepted : Bool
    pub reason : Option GateReason
    pub adjusted_size_usd : Option F

  -- The keyword arguments of `evaluate_gates`.
  pub record GateLimits : Type 0 where
    pub score_threshold : F
    pub max_new_per_day : ℕ
    pub max_positions : ℕ
    pub position_cap : F
    pub max_gross_exposure : F
    pub min_adv20_multiple : F
    pub min_days_listed : ℕ
    pub max_correlation : F

module _ {F : Type 0} where
  abbrev reject : GateReason → GateResult F
  reject r = record { accepted = false; reason = some r; adjusted_size_usd = none }

  abbrev accept : F → GateResult F
  accept size = record { accepted = true; reason = none; adjusted_size_usd = some size }

module _ {F : Type 0} ⦃f : Floats F⦄ where
  -- Half the target if earnings are near.
  abbrev pub adjusted_size : TradeProposal F → GateContext F → F
  adjusted_size p ctx =
      if get_or (lookup p.ticker ctx.earnings_within_3_days) false
      then f.mul p.target_position_usd (f.dec 5 1)
      else p.target_position_usd

  -- The gates on liquidity and on the ticker.
  unfoldable pub ticker_gates : TradeProposal F → GateContext F → GateLimits F → F → GateResult F
  ticker_gates p ctx lim size =
      if f.lt nought size
        && f.lt (get_or (lookup p.ticker ctx.adv20_dollar_volume_by_ticker) nought)
            (f.mul lim.min_adv20_multiple size)
      then reject GateReason.insufficient_liquidity
      else if contains p.ticker ctx.halted_tickers
      then reject GateReason.halted
      else if ltb (get_or (lookup p.ticker ctx.days_listed_by_ticker) 0) lim.min_days_listed
      then reject GateReason.listed_too_recently
      else if not (contains p.ticker ctx.universe_tickers)
      then reject GateReason.outside_universe
      else if f.lt lim.max_correlation (get_or (lookup p.ticker ctx.portfolio_correlations) nought)
      then reject GateReason.correlation_too_high
      else accept size

  -- The gates on the size of the position, then the rest.
  unfoldable pub size_gates :
      TradeProposal F → GateContext F → PortfolioState F → GateLimits F → F → Outcome (GateResult F)
  size_gates p ctx state lim size = do
    share ← divide size state.equity_usd
    if f.lt (f.mul lim.position_cap (f.add (of_nat 1) (f.dec 1 9))) share
        then ok (reject GateReason.position_cap_exceeded)
        else if f.lt lim.max_gross_exposure (f.add state.gross_exposure_pct share)
        then ok (reject GateReason.gross_exposure_exceeded)
        else ok (ticker_gates p ctx lim size)

  unfoldable pub evaluate_gates :
      TradeProposal F → GateContext F → PortfolioState F → GateLimits F → Outcome (GateResult F)
  evaluate_gates p ctx state lim =
      if f.le state.equity_usd nought
      then ok (reject GateReason.equity_nonpositive)
      else if f.lt p.score lim.score_threshold
      then ok (reject GateReason.score_below_threshold)
      else if is_weak p.setup_type
      then ok (reject GateReason.weak_setup)
      else if ctx.kill_switch_active
      then ok (reject GateReason.kill_switch_active)
      else if leb lim.max_new_per_day state.opened_today
      then ok (reject GateReason.daily_new_position_cap)
      else if leb lim.max_positions (length state.positions)
      then ok (reject GateReason.max_positions_exceeded)
      else if has p.ticker state.positions
      then ok (reject GateReason.already_held)
      else size_gates p ctx state lim (adjusted_size p ctx)
