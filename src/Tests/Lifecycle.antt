-- ===== src/Tests/Lifecycle.antt =====
-- execution/lifecycle.py against a broker that fills each sale at once and logs it.
use mathlib.Core.Path.{subst}
use squeeze_hunter.Prelude.{
  arith, ℕ, ◌≡◌, ◌≢◌, refl, true, false, Option, none, some, List, [], ◌∷◌, ◌++◌, Outcome, raised,
  contract, ok,
}
use squeeze_hunter.Prelude.Int.{pos, mul, quot}
use squeeze_hunter.Prelude.Floats.{nought}
use squeeze_hunter.Prelude.Fixed.{Fixed, fixed_floats}
use squeeze_hunter.Broker.{Ticker, Side, Status, BrokerOrder}
use squeeze_hunter.Risk.Stops.{Action}
use squeeze_hunter.Execution.Book.{Position}
use squeeze_hunter.Execution.Decisions.{ExitDecision}
use squeeze_hunter.Execution.Lifecycle.{BrokerCalls, LifecycleState}
use squeeze_hunter.Execution.Pricing.{round_to_tick}
use squeeze_hunter.Execution.Lifecycle.Cancel.{cancel_all, confirm, cancel_and_confirm}
use squeeze_hunter.Execution.Lifecycle.Process.{submit, replace_pending, process_one_position}
use squeeze_hunter.Execution.Lifecycle.Quiet.{IsQuiet}
use squeeze_hunter.Execution.Lifecycle.Sales.{Sales, IsSalesLog, SoldAtMost}
use squeeze_hunter.Execution.Lifecycle.Safety.{process_one_position-SoldAtMost}
use squeeze_hunter.Execution.Lifecycle.Handover.{ReportedDead, replace_pending-ReportedDead}
use squeeze_hunter.Tests.Decisions.{position, settings}

abbrev sale : Ticker → ℕ → Option Fixed → BrokerOrder Fixed
sale ticker qty limit = record {
  broker_order_id = 40;
  ticker = ticker;
  side = Side.sell;
  qty = qty;
  limit_price = limit;
  status = Status.filled;
  filled_qty = qty;
  avg_fill_price = limit;
  commission_usd = nought;
}

abbrev list_open : Sales → Outcome (List (BrokerOrder Fixed)) × Sales
list_open w = (ok [], w)

-- The broker's state is the log itself.
abbrev broker : BrokerCalls Fixed Sales
broker = record {
  fetch_quote = λ t w. (
    ok (record {
      ticker = t;
      bid = fixed_floats.dec 8 0;
      ask = fixed_floats.dec 8 0;
      last = fixed_floats.dec 8 0;
      timestamp_ns = 0;
    }),
    w,
  );
  get_position_qty = λ t w. (ok (pos 9), w);
  cancel_order = λ id w. (ok true, w);
  get_open_orders = some list_open;
  submit_sell = λ t q limit ts w. (ok (sale t q limit), w ++ (t, q) ∷ []);
  submit_buy = λ t q limit ts w. (raised contract, w);
  get_order = λ id w. (ok none, w);
  get_positions = λ w. (ok [], w);
  get_equity_usd = λ w. (ok none, w);
}

broker-IsQuiet : IsQuiet broker (λ w. w)
broker-IsQuiet = record {
  quote_quiet = λ t w. refl;
  qty_quiet = λ t w. refl;
  cancel_quiet = λ id w. refl;
  open_quiet =
      λ get_open w e. let same : list_open ≡ get_open = cc in subst (λ g. (g w).1 ≡ w) same refl;
}

broker-IsSalesLog : IsSalesLog broker (λ w. w)
broker-IsSalesLog = record { quiet = broker-IsQuiet; sell_logged = λ t q limit ts w. refl }

abbrev daemon : LifecycleState Fixed
daemon = record {
  positions = (1, position) ∷ [];
  exits = [];
  in_flight = [];
  exits_max_entries = 500;
  params = settings;
}

process_one_position-SoldAtMost_example :
    SoldAtMost 1 9 [] (process_one_position broker 50 1 daemon []).2
process_one_position-SoldAtMost_example =
    process_one_position-SoldAtMost broker (λ w. w) broker-IsSalesLog 50 1 daemon [] position refl

abbrev pending : Position Fixed
pending = record position { pending_exits = 30 ∷ [] }

abbrev closing : ExitDecision Fixed
closing = record {
  action = Action.exit;
  reason = none;
  qty = 9;
  fill_reference = fixed_floats.dec 8 0;
  price_triggered = true;
  new_peak = fixed_floats.dec 10 0;
  halved = false;
}

replaced_log :
    (replace_pending broker 50 1 pending (fixed_floats.dec 8 0) closing daemon []).2 ≡ (1, 9) ∷ []
unfolding replace_pending cancel_and_confirm cancel_all confirm submit round_to_tick quot mul
replaced_log = refl

replaced : (replace_pending broker 50 1 pending (fixed_floats.dec 8 0) closing daemon []).2 ≢ []
replaced e = let log = replaced_log in cc

replace_pending-ReportedDead_example : ReportedDead broker (30 ∷ []) list_open
replace_pending-ReportedDead_example =
    replace_pending-ReportedDead broker (λ w. w) broker-IsSalesLog 50 1 pending
      (fixed_floats.dec 8 0) closing daemon [] list_open refl (ground arith) replaced
