-- ===== src/Tests/Entries.antt =====
-- execution/entries.py with two orders that the broker cancels, one of them partly filled.
use squeeze_hunter.Prelude.{
  ◌+◌, ◌≡◌, refl, Bool, true, false, none, some, List, [], ◌∷◌, ok, raised, contract, contains,
  if◌then◌else◌, ◌==◌, arith,
}
use squeeze_hunter.Prelude.Int.{pos}
use squeeze_hunter.Prelude.Floats.{nought}
use squeeze_hunter.Prelude.Fixed.{Fixed, fixed_floats, Fixed-IsOrdered}
use squeeze_hunter.Broker.{Ticker, OrderId, Side, Status, BrokerOrder}
use squeeze_hunter.Execution.Lifecycle.{BrokerCalls}
use squeeze_hunter.Execution.Orders.{OrderState, Purpose, OrderRecord, get, state_from_broker_order}
use squeeze_hunter.Execution.Orders.Tracker.{IsTracker}
use squeeze_hunter.Execution.Entries.{EntryPath, EntryCfg, finish_entry}
use squeeze_hunter.Execution.Entries.Positions.{shares, gained, finish_entry-shares}
use squeeze_hunter.Execution.Entries.Ending.{EndsOrders}
use squeeze_hunter.Broker.Simulator.{SimulatorBroker, cancel_order, get_order}
use squeeze_hunter.Tests.Brokers.{holding_ten}
use squeeze_hunter.Tests.Decisions.{position}
use squeeze_hunter.Tests.Telemetry.{telemetry}

-- The broker's state is the list of the cancelled orders.
abbrev status_of : Bool → Status
status_of true = Status.cancelled
status_of false = Status.partial

abbrev reply : OrderId → List OrderId → BrokerOrder Fixed
reply id w = record {
  broker_order_id = id;
  ticker = 1;
  side = Side.buy;
  qty = 10;
  limit_price = some (fixed_floats.dec 20 0);
  status = status_of (contains id w);
  filled_qty = 4;
  avg_fill_price = some (fixed_floats.dec 20 0);
  commission_usd = nought;
}

abbrev canceller : BrokerCalls Fixed (List OrderId)
canceller = record {
  fetch_quote = λ t w. (raised contract, w);
  get_position_qty = λ t w. (ok (pos 0), w);
  cancel_order = λ id w. (ok true, id ∷ w);
  get_open_orders = none;
  submit_sell = λ t q limit ts w. (raised contract, w);
  submit_buy = λ t q limit ts w. (raised contract, w);
  get_order = λ id w. (ok (some (reply id w)), w);
  get_positions = λ w. (ok [], w);
  get_equity_usd = λ w. (ok none, w);
}

abbrev pub placed : OrderId → OrderRecord Fixed
placed id = record {
  order_id = id;
  ticker = 1;
  side = Side.buy;
  qty = 10;
  limit_price = some (fixed_floats.dec 20 0);
  purpose = Purpose.entry;
  state = OrderState.pending;
  filled_qty = 4;
  avg_fill_price = none;
  submitted_at = 0;
  updated_at = 0;
  commission_usd = nought;
  meta = record { score = none; setup_type = none; size_usd = none };
}

abbrev path : EntryPath Fixed
path = record {
  book = (1, position) ∷ [];
  telemetry = telemetry;
  planned = [];
  pending = (7, placed 7) ∷ (8, placed 8) ∷ [];
}

-- The simulator with order 7 in its history, filled at once.
abbrev filled_reply : BrokerOrder Fixed
filled_reply = record (reply 7 []) { status = Status.filled; filled_qty = 10 }

abbrev filled_desk : SimulatorBroker Fixed
filled_desk = record holding_ten { order_history = (7, filled_reply) ∷ [] }

abbrev simulator_calls : BrokerCalls Fixed (SimulatorBroker Fixed)
simulator_calls = record {
  fetch_quote = λ t w. (raised contract, w);
  get_position_qty = λ t w. (ok (pos 0), w);
  cancel_order = λ id w. (ok (cancel_order w id), w);
  get_open_orders = none;
  submit_sell = λ t q limit ts w. (raised contract, w);
  submit_buy = λ t q limit ts w. (raised contract, w);
  get_order = λ id w. (ok (get_order w id), w);
  get_positions = λ w. (ok [], w);
  get_equity_usd = λ w. (ok (some w.equity), w);
}

-- It answers so for the orders that it has filled.
simulator_calls-EndsOrders : EndsOrders simulator_calls (λ w. w ≡ filled_desk) ((7, placed 7) ∷ [])
unfolding state_from_broker_order get get_order
simulator_calls-EndsOrders = record {
  asked_usual = λ id w fine. fine;
  cancelled_usual = λ id w fine. fine;
  known = λ id r found still w fine.
      let here : id ≡ 7 = ground arith in rw (fine, here) (filled_reply, refl, refl, ground arith);
  ended = λ id r found still w fine.
      let here : id ≡ 7 = ground arith in
      rw (fine, here) (cancel_order filled_desk 7, filled_reply, refl, refl, refl, refl);
}

abbrev pub entry_cfg : EntryCfg Fixed
entry_cfg = record {
  entry_after_minutes = 5;
  entry_window_minutes = 20;
  entry_limit_bps = fixed_floats.dec 50 0;
  wall = λ ts. ts;
}

finish_entry-shares_example :
    let (returned, s') = finish_entry (placed 7) path in
    (returned ≡ ok tt)
    × ((j : Ticker)
        → shares j s'.book ≡ shares j path.book + (if j == 1 then gained (placed 7) else 0))
    × ((j : OrderId) → get j s'.pending ≡ (if j == 7 then none else get j path.pending))
    × IsTracker s'.pending
finish_entry-shares_example =
    finish_entry-shares Fixed-IsOrdered (placed 7) path (refl, refl, (refl, refl, tt))
