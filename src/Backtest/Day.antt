-- ===== src/Backtest/Day.antt =====
-- backtest/runner.py: the day loop of the backtest. A day that raises ends the run.
use squeeze_hunter.Prelude.{
  Option, none, some, List, [], ◌∷◌, ◌++◌, Outcome, ok, ◌>>=◌, if◌then◌else◌, keep, map,
}
use squeeze_hunter.Prelude.Dict.{Dict, lookup, insert, keys}
use squeeze_hunter.Prelude.Floats.{Floats, truthy}
use squeeze_hunter.Broker.{Ticker, Time}
use squeeze_hunter.Broker.Simulator.{mark_to_market, gross_exposure_pct}
use squeeze_hunter.Telemetry.{record_equity, to_killswitch_inputs}
use squeeze_hunter.Risk.Gates.{PortfolioState}
use squeeze_hunter.Risk.Killswitch.{evaluate_killswitch, advance_killswitch}
use squeeze_hunter.Execution.Proposals.{Candidate, setup_stats_from_trades, propose_entries}
use squeeze_hunter.Backtest.{
  Backtest, BacktestInputs, end_of, scores, rescored, held_qtys, recent_bars, fill_entries,
  manage_bar,
}

module _ {F : Type 0} ⦃f : Floats F⦄ (inputs : BacktestInputs F) (day_label : Time) where
  abbrev carried : Ticker → Option F → Dict F → Dict F
  carried t none marks = marks
  carried t (some mark) marks = if truthy mark then insert t mark marks else marks

  -- The position of a ticker, and the marks with its own. Without a bar of the day the last mark is
  -- carried forward, and nothing else happens.
  unfoldable pub manage_one : Ticker → Dict F × Backtest F → Outcome (Dict F × Backtest F)
  manage_one t (marks, s) = elim (lookup t s.book) [
    | none ↦ ok (marks, s)
    | some meta ↦ recent_bars inputs day_label t >>= λ bar. elim bar [
      | none ↦ ok (carried t meta.last_mark marks, s)
      | some b ↦ manage_bar inputs day_label meta t b s >>= λ s'. ok (insert t b.close marks, s')
    ]
  ]

  unfoldable pub manage_all : List Ticker → Dict F × Backtest F → Outcome (Dict F × Backtest F)
  manage_all [] m = ok m
  manage_all (t ∷ ts) m = manage_one t m >>= manage_all ts

  -- Tomorrow's entries, from the day's ranking.
  unfoldable pub propose : List (Candidate F) → Dict F → Backtest F → Outcome (Backtest F)
  propose ranked marks s = do
    ctx ← inputs.gate_context (end_of day_label) s.kill.active
    let broker = mark_to_market marks s.broker
    gross ← gross_exposure_pct marks broker
    let state : PortfolioState F = record {
      equity_usd = broker.equity;
      cash_usd = broker.cash;
      gross_exposure_pct = gross;
      positions = held_qtys broker.positions;
      opened_today = 0;
    }
    let trades = map (λ t. t.trade) s.trade_log
    decisions ←
        propose_entries ranked state ctx inputs.entry_settings
          (λ setup. setup_stats_from_trades trades setup)
    ok (record s {
      broker = broker;
      decision_log = s.decision_log ++ map (λ d. (day_label, d)) decisions;
      pending_entries = s.pending_entries ++ keep (λ d. d.accepted) decisions;
    })

  abbrev pub propose_if_any : List (Candidate F) → Dict F → Backtest F → Outcome (Backtest F)
  propose_if_any [] marks s = ok s
  propose_if_any (c ∷ cs) marks s = if s.kill.active then ok s else propose (c ∷ cs) marks s

  -- The end of the day: the equity, and the killswitch on it.
  unfoldable pub close_day : Dict F → Backtest F → Outcome (Backtest F)
  close_day marks s = do
    let broker = mark_to_market marks s.broker
    let telemetry = record_equity day_label broker.equity s.telemetry
    killswitch_inputs ← to_killswitch_inputs inputs.bdays (end_of day_label) telemetry
    let verdict = evaluate_killswitch killswitch_inputs inputs.killswitch_limits
    ok (record s {
      broker = broker;
      equity_series = s.equity_series ++ (day_label, broker.equity) ∷ [];
      daily_rows = s.daily_rows ++ (day_label, (broker.equity, broker.cash)) ∷ [];
      telemetry = record telemetry { position_marks = [] };
      kill = (advance_killswitch s.kill verdict (end_of day_label) inputs.cooldown_days).0;
    })

  unfoldable pub run_day : Backtest F → Outcome (Backtest F)
  run_day s = do
    let waiting = if s.kill.active then [] else s.pending_entries
    filled ← fill_entries inputs day_label waiting s
    ranked ← inputs.run_scan (end_of day_label)
    let scored = record filled {
      pending_entries = [];
      book = rescored (scores [] ranked) filled.book;
    }
    (marks, managed) ← manage_all (keys scored.book) ([], scored)
    proposed ← propose_if_any ranked marks managed
    close_day marks proposed

module _ {F : Type 0} ⦃f : Floats F⦄ (inputs : BacktestInputs F) where
  -- The loop over the sessions.
  unfoldable pub run_days : List Time → Backtest F → Outcome (Backtest F)
  run_days [] s = ok s
  run_days (d ∷ ds) s = run_day inputs d s >>= run_days ds
