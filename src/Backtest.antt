-- ===== src/Backtest.antt =====
-- backtest/runner.py: the state of the backtest, and what a day does for one entry and one position.
pub mod Day
pub mod InStep
pub mod Days
pub mod Windows
pub mod Gate
use squeeze_hunter.Prelude.{
  ℕ, ◌+◌, ◌-◌, ◌*◌, max, min, Bool, true, false, not, ◌&&◌, ◌||◌, Option, none, some, List, [], ◌∷◌,
  ◌++◌, Outcome, ok, raised, ◌>>=◌, if◌then◌else◌, ◌==◌, last, keep, map, get_or,
}
use squeeze_hunter.Prelude.Int.{pos_part}
use squeeze_hunter.Prelude.Dict.{Dict, lookup, insert, erase, keys}
use squeeze_hunter.Prelude.Floats.{Floats, nought, of_nat, divide, floor_divide, truthy, or_else}
use squeeze_hunter.Setup.{Setup}
use squeeze_hunter.Broker.{Ticker, OrderId, Time, Side, BrokerOrder}
use squeeze_hunter.Broker.Simulator.{
  Lot, SimulatorBroker, lot_qty, position_qty, submit_buy, submit_sell, mark_to_market,
  gross_exposure_pct,
}
use squeeze_hunter.Data.{Bar}
use squeeze_hunter.Telemetry.{
  PortfolioTelemetry, date, record_position, record_equity, to_killswitch_inputs,
}
use squeeze_hunter.Risk.Stops.{Action, StopReason, StopParams}
use squeeze_hunter.Risk.Gates.{PortfolioState, GateContext}
use squeeze_hunter.Risk.Killswitch.{
  KillswitchState, KillSwitchLimits, day, evaluate_killswitch, advance_killswitch,
}
use squeeze_hunter.Execution.Book.{Position, Book, new_position_meta, realized_pnl}
use squeeze_hunter.Execution.Context.{is_lookup}
use squeeze_hunter.Execution.Decisions.{ExitDecision, from_bar, decide_exit, apply_exit_decision}
use squeeze_hunter.Execution.Proposals.{
  TradeRow, EntryDecision, Candidate, EntrySettings, setup_stats_from_trades, propose_entries,
}

pub data TradeReason : Type 0 where
  entry : TradeReason
  stop : Option StopReason → TradeReason
  signal_decay_half : TradeReason

module _ (F : Type 0) where
  -- A row of the trade log: `trade` has the columns that the statistics read.
  pub record Trade : Type 0 where
    pub ts : Time
    pub ticker : Ticker
    pub qty : ℕ
    pub price : Option F
    pub reason : TradeReason
    pub trade : TradeRow F

  -- The variables of the loop.
  pub record Backtest : Type 0 where
    pub broker : SimulatorBroker F
    pub book : Book F
    pub trade_log : List Trade
    pub equity_series : List (Time × F)
    -- The equity and the cash of each day.
    pub daily_rows : List (Time × (F × F))
    pub pending_entries : List (EntryDecision F)
    pub telemetry : PortfolioTelemetry F
    pub decision_log : List (Time × EntryDecision F)
    pub kill : KillswitchState

  -- What the loop reads: the replay's bars and the scan at a clock, the gate context, a new order id
  -- for the simulator, and the settings.
  pub record BacktestInputs : Type 0 where
    pub fetch_bars : Time → Ticker → Time → Time → Outcome (List (Bar F))
    pub run_scan : Time → Outcome (List (Candidate F))
    pub gate_context : Time → Bool → Outcome (GateContext F)
    pub order_id : SimulatorBroker F → OrderId
    pub bdays : Time → Time
    pub stop_params : StopParams F
    pub entry_settings : EntrySettings F
    pub killswitch_limits : KillSwitchLimits F
    pub cooldown_days : ℕ

-- The end of a day, from its midnight.
abbrev pub end_of : Time → Time
end_of day_label = day_label + (day - 1)

abbrev pub is_exit : Action → Bool
is_exit Action.exit = true
is_exit _ = false

abbrev pub is_hold : Action → Bool
is_hold Action.hold = true
is_hold _ = false

module _ {F : Type 0} where
  abbrev pub scores : Dict F → List (Candidate F) → Dict F
  scores d [] = d
  scores d (c ∷ cs) = scores (insert c.ticker c.score d) cs

  -- The positions with the scores of the day; a ticker that is not ranked keeps its own.
  abbrev pub rescored : Dict F → Book F → Book F
  rescored ranked [] = []
  rescored ranked ((t, meta) ∷ book) =
      (t, record meta { current_score = get_or (lookup t ranked) meta.current_score })
      ∷ rescored ranked book

  abbrev pub held_qtys : Dict (Lot F) → Dict ℕ
  held_qtys [] = []
  held_qtys ((t, lot) ∷ lots) = (t, lot.qty) ∷ held_qtys lots

  -- The bar of the day, if the last one is of it.
  abbrev todays : Time → List (Bar F) → Option (Bar F)
  todays cur bars = elim (last bars) [
    | none ↦ none
    | some b ↦ if date b.ts == date cur then some b else none
  ]

module _ {F : Type 0} ⦃f : Floats F⦄ (inputs : BacktestInputs F) (day_label : Time) where
  -- The bars of the last two days; none where the ticker is not known.
  abbrev pub recent_bars : Ticker → Outcome (Option (Bar F))
  recent_bars t =
      let cur = end_of day_label in
      elim (inputs.fetch_bars cur t (cur - 2 * day) cur) [
        | raised e ↦ if is_lookup e then ok none else raised e
        | ok bars ↦ ok (todays cur bars)
      ]

  abbrev buy_row : EntryDecision F → ℕ → BrokerOrder F → Trade F
  buy_row d qty order = record {
    ts = day_label;
    ticker = d.ticker;
    qty = qty;
    price = order.avg_fill_price;
    reason = TradeReason.entry;
    trade = record {
      side = Side.buy;
      setup_type = d.setup_type;
      partial = false;
      realized = none;
      pct_return = none;
    };
  }

  -- `order.avg_fill_price or other`
  abbrev pub price_or : Option F → F → F
  price_or none other = other
  price_or (some p) other = or_else p other

  -- The purchase at the day's open.
  unfoldable pub buy_at_open : EntryDecision F → F → ℕ → Backtest F → Outcome (Backtest F)
  buy_at_open d fill_px eqty s =
      let (r, broker) =
        submit_buy (inputs.order_id s.broker) d.ticker eqty (some fill_px) (end_of day_label) true
          s.broker in
      r >>= λ order. divide order.commission_usd (of_nat eqty) >>= λ commission. ok (record s {
        broker = broker;
        trade_log = s.trade_log ++ buy_row d eqty order ∷ [];
        book =
            insert d.ticker
              (new_position_meta d.ticker eqty (price_or order.avg_fill_price fill_px) d.score
                d.setup_type commission)
              s.book;
      })

  unfoldable pub fill_entry : EntryDecision F → Backtest F → Outcome (Backtest F)
  fill_entry d s = recent_bars d.ticker >>= λ bar. elim bar [
    | none ↦ ok s
    | some b ↦
        if f.le b.open_price nought
        then ok s
        else (floor_divide d.size_usd b.open_price >>= λ n.
            buy_at_open d b.open_price (max 1 (pos_part n)) s)
  ]

  unfoldable pub fill_entries : List (EntryDecision F) → Backtest F → Outcome (Backtest F)
  fill_entries [] s = ok s
  fill_entries (d ∷ ds) s = fill_entry d s >>= fill_entries ds

  abbrev sell_row : Position F → Ticker → ExitDecision F → ℕ → F → F × F → Trade F
  sell_row meta ticker d qty price profit = record {
    ts = day_label;
    ticker = ticker;
    qty = qty;
    price = some price;
    reason = if is_exit d.action then TradeReason.stop d.reason else TradeReason.signal_decay_half;
    trade = record {
      side = Side.sell;
      setup_type = meta.setup_type;
      partial = not (is_exit d.action);
      realized = some profit.0;
      pct_return = some profit.1;
    };
  }

  -- The sale that a decision asks for.
  unfoldable pub sell_on : Position F → Ticker → ExitDecision F → Backtest F → Outcome (Backtest F)
  sell_on meta ticker d s =
      let qty = min d.qty (position_qty s.broker ticker) in
      if qty == 0
      then ok s
      else (let (r, broker) =
            submit_sell (inputs.order_id s.broker) ticker qty (some d.fill_reference)
              (end_of day_label) false s.broker in
          r >>= λ order.
          let price = price_or order.avg_fill_price d.fill_reference in
          realized_pnl meta qty price order.commission_usd >>= λ profit. ok (record s {
            broker = broker;
            trade_log = s.trade_log ++ sell_row meta ticker d qty price profit ∷ [];
            book =
                if is_exit d.action
                then erase ticker s.book
                else insert ticker (record meta { qty = meta.qty - qty }) s.book;
          }))

  -- A position on a day with a bar.
  unfoldable pub manage_bar : Position F → Ticker → Bar F → Backtest F → Outcome (Backtest F)
  manage_bar meta ticker b s =
      let meta' = record meta { last_mark = some b.close; bars_held = meta.bars_held + 1 } in
      decide_exit meta' (from_bar b) inputs.stop_params >>= λ d.
      let meta'' = apply_exit_decision meta' d in
      let s' = record s {
        telemetry = record_position ticker meta.entry_price b.low s.telemetry;
        book = insert ticker meta'' s.book;
      } in
      if is_hold d.action then ok s' else sell_on meta'' ticker d s'
