-- ===== src/Lib.antt =====
-- squeeze-hunter: a screener and trading daemon for short squeezes. This library models its risk and
-- execution core, and proves what makes each part correct.
--
-- The parts and how they interact. A scored ticker is labelled by the classifier. For a ranking of
-- candidates, `propose_entries` sizes each by Kelly and runs it through the pre-trade gates. An entry
-- is cut into slices. A position is watched by the lifecycle daemon: on every tick it asks the broker
-- for a quote, reconciles what is pending, and runs the exit decision, which is the stop stack with
-- its bookkeeping. The killswitch closes the gates for new entries; its inputs come from the recorded
-- telemetry. Orders are followed in a tracker. The accepted candidates are bought after the opening
-- window and settled into the book, which is reconciled with the broker's positions. A simulator takes
-- the broker's place in a backtest, and a replay of the cached history that of the market data. The
-- runtime holds this state between its jobs: the tick of the session, the scan at night, the end of the
-- day and the planning before the open. It saves a snapshot after each, and restores it at its start.
--
-- Which file models what (paths of the package src/squeeze_hunter):
--   Prelude             shared notation, lists, dicts, integers, exceptions as values, floats
--   Setup               the setup labels
--   Broker              broker/base.py: Quote, BrokerOrder, PositionSnapshot
--   Broker/CostModel    backtest/cost_model.py: the stock costs
--   Broker/Simulator    broker/simulator.py: SimulatorBroker; its share counts in Balance and Runs
--   Broker/Ibkr         broker/ibkr.py: its data; Session has the calls of IBKRBroker
--   Data                data/schema.py: Bar, OptionChain and the other records
--   Data/Replay         data/providers/backtest.py: BacktestProvider
--   Telemetry           telemetry.py: PortfolioTelemetry
--   Score               score/classifier.py: classify_setups
--   Risk/Stops          risk/stops.py: evaluate_stops
--   Risk/Killswitch     risk/killswitch.py: evaluate_killswitch, advance_killswitch
--   Risk/Killswitch/Controller   risk/killswitch_controller.py and its gauges of monitor/metrics.py;
--                       the snapshot in Risk/Killswitch/Snapshot
--   Risk/Gates          risk/gates.py: evaluate_gates
--   Risk/Kelly          risk/kelly.py: kelly_position_pct, kelly_priors_for_setup
--   Execution/Orders    execution/orders.py: OrderRecord, OrderTracker; Snapshot for its rows
--   Execution/Book      execution/book.py: positions and realized_pnl
--   Execution/Decisions execution/decisions.py: decide_exit
--   Execution/Proposals execution/decisions.py: propose_entries
--   Execution/Pricing   execution/pricing.py: round_to_tick
--   Execution/Slicing   execution/slicing.py: build_twap_plan
--   Execution/Lifecycle execution/lifecycle.py: Cancel has _cancel_and_confirm, Process has
--                       _process_one_position, stage by stage, and manage_positions
--   Execution/Oms       execution/oms.py: _await_terminal; Execute has OrderManager.execute
--   Execution/Context   execution/context.py: build_gate_context, earnings_within_days
--   Execution/Entries   execution/entries.py: execute_planned and _finish_entry; Plan has plan and
--                       Settle has settle_pending
--   Execution/Reconcile execution/reconcile.py: reconcile_book
--   Calendar            trading_calendar.py: the session and the trading day
--   Ingest              ingest/freshness.py: the ages of the data sets
--   Runtime             runtime.py: RuntimeContext and how a job runs; Services has what it calls;
--                       Tick has tick and _reconcile_with_broker; Daily has nightly_scan, eod_close
--                       and premarket_verify; Persist has _snapshot, _restore, _persist and _notify;
--                       Setup has setup and shutdown
--   Backtest            backtest/runner.py: the stages of run_backtest; Day has a whole day;
--                       Windows has backtest/walk_forward.py: _validate_windows;
--                       Gate has backtest/gate1.py and backtest/deflated_sharpe.py
--   Tests               the theorems at concrete inputs
--
-- How the code is rendered. Objects that are changed in place become records passed from step to
-- step, also when a step raises. Exceptions are values of `Outcome`. Dicts are lists of entries in
-- insertion order. Tickers and order ids are numbers, since they are only compared; quantities are
-- natural numbers; times are microseconds. A float is of any type with the operations of `Floats`;
-- theorems that need more take the laws of `IsOrdered`, which allow NaN and say nothing of rounding
-- but that it keeps the order. Ten-thousandths (Prelude/Fixed) meet them and run. The broker that
-- the daemon calls is a record of functions on a state of its own, each of which may raise; the
-- theorems on its sales take a log that the calls keep.
--
-- Loops run over lists, so they need no fuel; the polls of an order are counted, as in the source.
--
-- Parameters, for what is not code of the repository: the clock and the sleep of the order manager,
-- the time zone of the trading window (the time that a clock in New York shows), the business-day
-- offsets of pandas, the sessions between two dates, the rows that the parquet files hold, the
-- writing of the decision log, the ids of the simulator's orders, which are random, the holidays of
-- the exchange, and the client of ib_async (Broker/Ibkr), and for the runtime its broker, its
-- alerts, its store and the stamps of the data (Runtime/Services). The scan is a parameter of the
-- backtest and of the runtime.
--
-- Not modelled: logging, the daemon's lock (calls run one after the other), the network and file
-- access of the data providers, the store, the numerical signals
-- over data frames, the statistics of the backtest, the ingestion, the universe, the scheduler, the
-- configuration, the monitor's server and the command line. Still open: the runs of the walk-forward.
pub mod Prelude
pub mod Broker
pub mod Data
pub mod Backtest
pub mod Setup
pub mod Telemetry
pub mod Score
pub mod Risk
pub mod Execution
pub mod Calendar
pub mod Ingest
pub mod Runtime
pub mod Tests
