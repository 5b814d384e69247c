-- ===== src/Telemetry.antt =====
-- telemetry.py: the inputs of the killswitch, from recorded history. Dates are days since the epoch,
-- in UTC; a source of data is a number.
pub mod Marks
pub mod Peaks
pub mod Outages
use squeeze_hunter.Prelude.{
  ℕ, ◌+◌, ◌-◌, ◌*◌, ◌/◌, Bool, false, Option, none, some, List, [], ◌∷◌, ◌++◌, Outcome, ok, ◌>>=◌,
  if◌then◌else◌, ltb, leb, ◌==◌, length, last, drop, keep, get_or, contains, map,
}
use squeeze_hunter.Prelude.Dict.{Dict, lookup, insert, erase}
use squeeze_hunter.Prelude.Floats.{Floats, nought, divide, fmax}
use squeeze_hunter.Broker.{Ticker, Time}
use squeeze_hunter.Data.{Date}
use squeeze_hunter.Risk.Killswitch.{KillSwitchInputs, day}

abbrev pub date : Time → Date
date ts = ts / day

abbrev pub Source : Type 0
Source = ℕ

-- Whole seconds from an instant to a later one; 0 if it is not later.
abbrev pub seconds_since : Time → Time → ℕ
seconds_since since as_of = (as_of - since) / 1_000_000

abbrev pub raise_to : Time → Time → Time
raise_to floor ts = if ltb ts floor then floor else ts

abbrev pub raise_stamp : Time → Option Time → Option Time
raise_stamp floor none = none
raise_stamp floor (some ts) = some (raise_to floor ts)

abbrev pub raise_stamps : Time → Dict Time → Dict Time
raise_stamps floor [] = []
raise_stamps floor (e ∷ es) = (e.0, raise_to floor e.1) ∷ raise_stamps floor es

abbrev pub outage_of : Option Time → Time → ℕ
outage_of none as_of = 0
outage_of (some ts) as_of = seconds_since ts as_of

-- The oldest stamp of a critical source, if there is one.
abbrev pub oldest : List Source → Dict Time → Option Time
oldest critical [] = none
oldest critical (e ∷ es) =
    if contains e.0 critical
    then some (elim (oldest critical es) [ none ↦ e.1 | some ts ↦ if ltb ts e.1 then ts else e.1 ])
    else oldest critical es

pub record PortfolioTelemetry (F : Type 0) : Type 0 where
  pub equity_history : List (Time × F)
  pub equity_peak_per_day : Dict F
  pub position_marks : Dict (F × F)
  pub last_broker_heartbeat : Option Time
  pub data_freshness : Dict Time
  pub critical_sources : List Source

module _ {F : Type 0} where
  -- A reading of the day of the last entry takes its place; another one is added.
  abbrev pub add_reading : Time → F → List (Time × F) → List (Time × F)
  add_reading ts equity [] = (ts, equity) ∷ []
  add_reading ts equity (e ∷ []) =
      if date e.0 == date ts then (ts, equity) ∷ [] else e ∷ (ts, equity) ∷ []
  add_reading ts equity (e ∷ f ∷ es) = e ∷ add_reading ts equity (f ∷ es)

  abbrev pub last_sixty : List (Time × F) → List (Time × F)
  last_sixty es = if ltb 60 (length es) then drop (length es - 60) es else es

  -- The days of the last ninety before a date.
  abbrev pub recent_days : Date → Dict F → Dict F
  recent_days today peaks = keep (λ e. leb today (e.0 + 90)) peaks

  unfoldable pub clear_position : Ticker → PortfolioTelemetry F → PortfolioTelemetry F
  clear_position ticker t = record t { position_marks = erase ticker t.position_marks }

  unfoldable pub record_position : Ticker → F → F → PortfolioTelemetry F → PortfolioTelemetry F
  record_position ticker entry_price mark_price t = record t {
    position_marks = insert ticker (entry_price, mark_price) t.position_marks;
  }

  unfoldable pub record_broker_heartbeat : Time → PortfolioTelemetry F → PortfolioTelemetry F
  record_broker_heartbeat ts t = record t { last_broker_heartbeat = some ts }

  unfoldable pub record_data_freshness : Source → Time → PortfolioTelemetry F → PortfolioTelemetry F
  record_data_freshness source ts t = record t {
    data_freshness = insert source ts t.data_freshness;
  }

  unfoldable pub clamp_freshness_to : Time → PortfolioTelemetry F → PortfolioTelemetry F
  clamp_freshness_to floor t = record t {
    last_broker_heartbeat = raise_stamp floor t.last_broker_heartbeat;
    data_freshness = raise_stamps floor t.data_freshness;
  }

  pub broker_disconnected_for_seconds : Time → PortfolioTelemetry F → ℕ
  broker_disconnected_for_seconds as_of t = outage_of t.last_broker_heartbeat as_of

  pub critical_data_stale_for_seconds : Time → PortfolioTelemetry F → ℕ
  critical_data_stale_for_seconds as_of t =
      outage_of (oldest t.critical_sources t.data_freshness) as_of

module _ {F : Type 0} ⦃f : Floats F⦄ where
  unfoldable pub record_equity : Time → F → PortfolioTelemetry F → PortfolioTelemetry F
  record_equity ts equity t =
      let peak = fmax (get_or (lookup (date ts) t.equity_peak_per_day) equity) equity in
      record t {
        equity_history = last_sixty (add_reading ts equity t.equity_history);
        equity_peak_per_day = recent_days (date ts) (insert (date ts) peak t.equity_peak_per_day);
      }

  -- `max` of a list with a first member.
  abbrev fmax_from : F → List F → F
  fmax_from acc [] = acc
  fmax_from acc (x ∷ xs) = fmax_from (fmax acc x) xs

  abbrev readings_since : Time → List (Time × F) → List (Time × F)
  readings_since cutoff es = keep (λ e. leb cutoff e.0) es

  -- From a peak above zero.
  abbrev drawdown_from : F → F → Outcome F
  drawdown_from current peak =
      if f.le peak nought then ok nought else divide (f.sub current peak) peak

  -- The fallback on the history where no day of the window has a peak.
  abbrev drawdown_of_history : F → List (Time × F) → Outcome F
  drawdown_of_history current [] = ok nought
  drawdown_of_history current (e ∷ []) = ok nought
  drawdown_of_history current (e ∷ e' ∷ es) =
      drawdown_from current (fmax_from e.1 (e'.1 ∷ map (λ e. e.1) es))

  abbrev drawdown_of_peaks : F → List (Time × F) → List F → Outcome F
  drawdown_of_peaks current recent [] = drawdown_of_history current recent
  drawdown_of_peaks current recent (p ∷ ps) = drawdown_from current (fmax_from p ps)

  -- The window is thirty days: times from `as_of` less thirty days on.
  unfoldable pub rolling_30d_max_drawdown : Time → PortfolioTelemetry F → Outcome F
  rolling_30d_max_drawdown as_of t =
      let peaks = keep (λ e. leb (date as_of) (e.0 + 30)) t.equity_peak_per_day in
      let recent = keep (λ e. leb as_of (e.0 + 30 * day)) t.equity_history in
      elim (last t.equity_history) [
        | none ↦ ok nought
        | some e ↦ drawdown_of_peaks e.1 recent (map (λ e. e.1) peaks)
      ]

  abbrev change_over : List (Time × F) → Outcome F
  change_over [] = ok nought
  change_over (e ∷ []) = ok nought
  change_over (e ∷ e' ∷ es) =
      if f.le e.1 nought
      then ok nought
      else elim (last (e' ∷ es)) [ none ↦ ok nought | some end ↦ divide (f.sub end.1 e.1) e.1 ]

  -- `bdays` gives the midnight of the fourth business day back, of pandas.
  unfoldable pub last_3_days_cumulative_pnl_pct :
      (Time → Time) → Time → PortfolioTelemetry F → Outcome F
  last_3_days_cumulative_pnl_pct bdays as_of t =
      change_over (readings_since (bdays as_of) t.equity_history)

  unfoldable pub worst_gap_from : F → Dict (F × F) → Outcome F
  worst_gap_from worst [] = ok worst
  worst_gap_from worst ((_, (entry, mark)) ∷ marks) =
      if f.le entry nought
      then worst_gap_from worst marks
      else (divide (f.sub mark entry) entry >>= λ gap.
          worst_gap_from (if f.lt gap worst then gap else worst) marks)

  unfoldable pub worst_position_gap_pct : PortfolioTelemetry F → Outcome F
  worst_position_gap_pct t = worst_gap_from nought t.position_marks

  unfoldable pub to_killswitch_inputs :
      (Time → Time) → Time → PortfolioTelemetry F → Outcome (KillSwitchInputs F)
  to_killswitch_inputs bdays as_of t = do
    drawdown ← rolling_30d_max_drawdown as_of t
    loss ← last_3_days_cumulative_pnl_pct bdays as_of t
    gap ← worst_position_gap_pct t
    ok (record {
      as_of = as_of;
      rolling_30d_max_drawdown = drawdown;
      last_3_days_cumulative_pnl_pct = loss;
      worst_position_gap_pct = gap;
      broker_disconnected_for_seconds = broker_disconnected_for_seconds as_of t;
      critical_data_stale_for_seconds = critical_data_stale_for_seconds as_of t;
    })
