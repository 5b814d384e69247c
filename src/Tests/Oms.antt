-- ===== src/Tests/Oms.antt =====
-- execution/oms.py against a broker that never fills, and cancels what it is asked to.
use squeeze_hunter.Prelude.{
  ℕ, suc, Bool, true, false, ◌||◌, Option, none, some, [], ◌∷◌, Outcome, ok, is_some,
}
use squeeze_hunter.Prelude.Int.{pos}
use squeeze_hunter.Prelude.Floats.{nought}
use squeeze_hunter.Prelude.Fixed.{Fixed, fixed_floats}
use squeeze_hunter.Broker.{Ticker, OrderId, Side, Status, BrokerOrder}
use squeeze_hunter.Execution.Lifecycle.{BrokerCalls}
use squeeze_hunter.Execution.Slicing.{Slice, TwapPlan}
use squeeze_hunter.Execution.Oms.Execute.{OmsParams}
use squeeze_hunter.Execution.Oms.Working.{without}

-- What the broker has: the next order id, the order working, and whether two ever were.
pub record Desk : Type 0 where
  pub next_id : OrderId
  pub working : Option OrderId
  pub overlap : Bool
  pub failed : Bool

abbrev unfilled : OrderId → Ticker → ℕ → Option Fixed → BrokerOrder Fixed
unfilled id ticker qty limit = record {
  broker_order_id = id;
  ticker = ticker;
  side = Side.buy;
  qty = qty;
  limit_price = limit;
  status = Status.routed;
  filled_qty = 0;
  avg_fill_price = none;
  commission_usd = nought;
}

abbrev place : Ticker → ℕ → Option Fixed → Desk → Outcome (BrokerOrder Fixed) × Desk
place ticker qty limit w = (
  ok (unfilled w.next_id ticker qty limit),
  record {
    next_id = suc w.next_id;
    working = some w.next_id;
    overlap = w.overlap || is_some w.working;
    failed = w.failed;
  },
)

abbrev desk_broker : BrokerCalls Fixed Desk
desk_broker = record {
  fetch_quote = λ t w. (
    ok (record {
      ticker = t;
      bid = fixed_floats.dec 8 0;
      ask = fixed_floats.dec 8 0;
      last = fixed_floats.dec 8 0;
      timestamp_ns = 0;
    }),
    w,
  );
  get_position_qty = λ t w. (ok (pos 0), w);
  cancel_order = λ id w. (ok true, record w { working = without id w.working });
  get_open_orders = none;
  submit_sell = λ t q limit ts w. place t q limit w;
  submit_buy = λ t q limit ts w. place t q limit w;
  get_order = λ id w. (ok (some (unfilled id 1 5 none)), w);
  get_positions = λ w. (ok [], w);
  get_equity_usd = λ w. (ok none, w);
}

abbrev slice : ℕ → Slice Fixed
slice at = record {
  submit_at = at;
  qty = 5;
  limit_price = fixed_floats.dec 8 0;
  aggression_bps = fixed_floats.dec 5 0;
}

abbrev plan : TwapPlan Fixed
plan = record { ticker = 1; side = Side.buy; slices = slice 0 ∷ slice 1_000_000 ∷ [] }

abbrev params : OmsParams Fixed
params = record {
  marketable_bps = fixed_floats.dec 50 0;
  poll_interval_s = fixed_floats.dec 5 1;
  slice_fill_wait_s = some (fixed_floats.dec 1 0);
}

abbrev desk : Desk
desk = record { next_id = 1; working = none; overlap = false; failed = false }
