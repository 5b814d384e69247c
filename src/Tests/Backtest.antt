-- ===== src/Tests/Backtest.antt =====
-- backtest/runner.py over two days: a waiting entry is filled at the open of the first.
use squeeze_hunter.Prelude.{
  ℕ, ◌<◌, ◌≡◌, ◌↔◌, refl, true, false, Option, none, some, [], ◌∷◌, Outcome, ok, raised,
  value_error, IfOk, ◌==◌, if◌then◌else◌, Bool-cases, inl, inr,
}
use squeeze_hunter.Prelude.Fixed.{Fixed, fixed_floats}
use squeeze_hunter.Setup.{Setup}
use squeeze_hunter.Broker.{Ticker, Time}
use squeeze_hunter.Broker.Simulator.{submit_buy, bought_lot, resolve_price}
use squeeze_hunter.Broker.CostModel.{simulate_buy, slippage_bps}
use squeeze_hunter.Data.{Bar}
use squeeze_hunter.Risk.Killswitch.{day}
use squeeze_hunter.Execution.Book.{new_position_meta}
use squeeze_hunter.Execution.Reconcile.Adoption.{book_qty}
use squeeze_hunter.Prelude.Int.{quot, mul, add, sub}
use squeeze_hunter.Execution.Proposals.{EntryDecision}
use squeeze_hunter.Backtest.{Backtest, BacktestInputs, fill_entries, fill_entry, buy_at_open}
use squeeze_hunter.Backtest.Day.{run_days}
use squeeze_hunter.Backtest.Windows.{
  WalkForwardConfig, Follow, validate_windows, validate_windows_iff,
}
use squeeze_hunter.Backtest.Days.{IsReady, run_days-IsReady}
use squeeze_hunter.Tests.Brokers.{holding_ten}
use squeeze_hunter.Tests.Decisions.{position, settings}
use squeeze_hunter.Tests.Sizing.{context, entry_settings}
use squeeze_hunter.Tests.Telemetry.{telemetry}

abbrev bar_on : Ticker → Time → Bar Fixed
bar_on ticker now = record {
  ticker = ticker;
  ts = now;
  open_price = fixed_floats.dec 10 0;
  high = fixed_floats.dec 12 0;
  low = fixed_floats.dec 10 0;
  close = fixed_floats.dec 11 0;
  volume = 1000;
}

abbrev inputs : BacktestInputs Fixed
inputs = record {
  fetch_bars = λ now t start end. ok (if t == 2 then bar_on t now ∷ [] else []);
  run_scan = λ now. ok [];
  gate_context = λ now active. ok context;
  order_id = λ b. 5;
  bdays = λ ts. ts;
  stop_params = settings;
  entry_settings = entry_settings;
  killswitch_limits = record {
    monthly_drawdown_max = fixed_floats.neg (fixed_floats.dec 1 1);
    three_day_loss_max = fixed_floats.neg (fixed_floats.dec 1 1);
    gap_through_stop_max = fixed_floats.neg (fixed_floats.dec 2 1);
    broker_outage_max_seconds = 300;
    data_stale_max_seconds = 300;
  };
  cooldown_days = 7;
}

abbrev waiting : EntryDecision Fixed
waiting = record {
  ticker = 2;
  score = fixed_floats.dec 9 0;
  setup_type = Setup.car;
  accepted = true;
  reason = none;
  size_usd = fixed_floats.dec 100 0;
}

abbrev start : Backtest Fixed
start = record {
  broker = holding_ten;
  book = (1, record position { qty = 10 }) ∷ [];
  trade_log = [];
  equity_series = [];
  daily_rows = [];
  pending_entries = waiting ∷ [];
  telemetry = telemetry;
  decision_log = [];
  kill = record { active = false; reason = none; first_tripped_at = none };
}

start-IsReady : IsReady start
start-IsReady = (
  record {
    same_shares = λ j. elim (Bool-cases (j == 1)) [ inl e ↦ rw e refl | inr e ↦ rw e refl ];
    book_dict = (refl, tt);
    lots_dict = (refl, tt);
  },
  (refl, refl, tt),
)

run_days-IsReady_example : IfOk IsReady (run_days inputs (0 ∷ day ∷ []) start)
run_days-IsReady_example = run_days-IsReady inputs (0 ∷ day ∷ []) start start-IsReady

abbrev shares_after : Ticker → Outcome (Backtest Fixed) → Option ℕ
shares_after t (ok s) = book_qty t s.book
shares_after t (raised e) = none

-- A hundred dollars' worth of the ticker, at ten dollars each.
bought : shares_after 2 (fill_entries inputs 0 (waiting ∷ []) start) ≡ some 10
unfolding fill_entries fill_entry buy_at_open submit_buy simulate_buy slippage_bps bought_lot
    resolve_price new_position_meta quot mul add sub
bought = refl

abbrev two_tests : WalkForwardConfig
two_tests = record {
  train_start = 0;
  train_end = 5;
  test_windows = (5, 7) ∷ (8, 9) ∷ [];
  holdout = (9, 12);
}

validate_windows_iff_example : (validate_windows two_tests ≡ ok tt) ↔ (
    (two_tests.train_start < two_tests.train_end)
    × Follow two_tests.train_end two_tests.test_windows two_tests.holdout)
validate_windows_iff_example = validate_windows_iff two_tests

abbrev overlapping_tests : WalkForwardConfig
overlapping_tests = record {
  train_start = 0;
  train_end = 5;
  test_windows = (5, 8) ∷ (7, 9) ∷ [];
  holdout = (9, 12);
}

accepted : validate_windows two_tests ≡ ok tt
unfolding validate_windows
accepted = refl

refused : validate_windows overlapping_tests ≡ raised value_error
unfolding validate_windows
refused = refl
