-- ===== src/Execution/Orders.antt =====
-- execution/orders.py: the order state machine, one order's record and the tracker of open orders.
pub mod Transitions
pub mod Tracker
pub mod Open
pub mod Snapshot
use squeeze_hunter.Prelude.{
  ℕ, ◌≡◌, Bool, true, false, not, ◌&&◌, ◌||◌, Option, none, some, List, [], ◌∷◌, max, Outcome, ok,
  raised, invalid_transition, if◌then◌else◌, ltb, get_or, keep,
}
use squeeze_hunter.Prelude.Dict.{Dict, lookup, insert, erase, values}
use squeeze_hunter.Prelude.Floats.{Floats, nought, truthy, or_else}
use squeeze_hunter.Setup.{Setup}
use squeeze_hunter.Broker.{Ticker, OrderId, Time, Side, Status, BrokerOrder}

pub data OrderState : Type 0 where
  pending routed partial filled rejected cancelled expired : OrderState

-- `in TERMINAL_STATES`
abbrev pub is_terminal_state : OrderState → Bool
is_terminal_state OrderState.filled = true
is_terminal_state OrderState.rejected = true
is_terminal_state OrderState.cancelled = true
is_terminal_state OrderState.expired = true
is_terminal_state _ = false

-- `nxt in _ALLOWED[state]`
abbrev pub allowed : OrderState → OrderState → Bool
allowed OrderState.pending nxt = true
allowed OrderState.routed nxt = true
allowed OrderState.partial OrderState.partial = true
allowed OrderState.partial OrderState.filled = true
allowed OrderState.partial OrderState.cancelled = true
allowed OrderState.partial OrderState.expired = true
allowed _ _ = false

-- The status with "is anything filled", in the order of the `if`s.
abbrev state_of_status : Status → Bool → OrderState
state_of_status Status.filled some_filled = OrderState.filled
state_of_status Status.rejected some_filled = OrderState.rejected
state_of_status Status.cancelled some_filled = OrderState.cancelled
state_of_status Status.expired some_filled = OrderState.expired
state_of_status Status.partial some_filled = OrderState.partial
state_of_status Status.routed true = OrderState.partial
state_of_status Status.pending true = OrderState.partial
state_of_status Status.routed false = OrderState.routed
state_of_status _ _ = OrderState.pending

-- A routed order that the broker reports as pending stays routed.
abbrev pub bounce : OrderState → OrderState → OrderState
bounce OrderState.routed OrderState.pending = OrderState.routed
bounce state nxt = nxt

pub data Purpose : Type 0 where
  entry exit halve : Purpose

module _ (F : Type 0) where
  -- The keys that the entry path writes to `meta`, each absent or present.
  pub record OrderMeta : Type 0 where
    pub score : Option F
    pub setup_type : Option Setup
    pub size_usd : Option F

  pub record OrderRecord : Type 0 where
    pub order_id : OrderId
    pub ticker : Ticker
    pub side : Side
    pub qty : ℕ
    pub limit_price : Option F
    pub purpose : Purpose
    pub state : OrderState
    pub filled_qty : ℕ
    pub avg_fill_price : Option F
    pub submitted_at : Time
    pub updated_at : Time
    pub commission_usd : F
    pub meta : OrderMeta

  abbrev pub OrderTracker : Type 0
  OrderTracker = Dict OrderRecord

module _ {F : Type 0} where
  unfoldable pub state_from_broker_order : BrokerOrder F → OrderState
  state_from_broker_order bo = state_of_status bo.status (ltb 0 bo.filled_qty)

  abbrev pub is_terminal : OrderRecord F → Bool
  is_terminal r = is_terminal_state r.state

  -- `OrderTracker.add`
  unfoldable pub add : OrderRecord F → OrderTracker F → OrderTracker F
  add rec records = insert rec.order_id rec records

  unfoldable pub get : OrderId → OrderTracker F → Option (OrderRecord F)
  get order_id records = lookup order_id records

  unfoldable pub forget : OrderId → OrderTracker F → OrderTracker F
  forget order_id records = erase order_id records

  -- `OrderTracker.open`
  pub open_orders : OrderTracker F → List (OrderRecord F)
  open_orders records = keep (λ r. not (is_terminal r)) (values records)

  -- `OrderTracker.all`
  pub all_orders : OrderTracker F → List (OrderRecord F)
  all_orders records = values records

module _ {F : Type 0} ⦃f : Floats F⦄ where
  pub from_broker_order : BrokerOrder F → Purpose → Time → OrderMeta F → OrderRecord F
  from_broker_order bo purpose now meta = record {
    order_id = bo.broker_order_id;
    ticker = bo.ticker;
    side = bo.side;
    qty = bo.qty;
    limit_price = bo.limit_price;
    purpose = purpose;
    state = state_from_broker_order bo;
    filled_qty = bo.filled_qty;
    avg_fill_price = bo.avg_fill_price;
    submitted_at = now;
    updated_at = now;
    commission_usd = or_else bo.commission_usd nought;
    meta = meta;
  }

  -- `a if a else b`, for a price that may be absent.
  abbrev priced : Option F → Option F → Option F
  priced none old = old
  priced (some p) old = if truthy p then some p else old

  unfoldable pub apply : OrderRecord F → BrokerOrder F → Time → Outcome (OrderRecord F)
  unfolding state_from_broker_order
  apply self bo now =
      let nxt = state_from_broker_order bo in
      if allowed self.state nxt
      then ok (record self {
        state = bounce self.state nxt;
        filled_qty = max self.filled_qty bo.filled_qty;
        avg_fill_price = priced bo.avg_fill_price self.avg_fill_price;
        commission_usd = or_else bo.commission_usd self.commission_usd;
        updated_at = now;
      })
      else raised invalid_transition

  -- What `update` does once the record is found.
  abbrev stored :
      OrderTracker F → Outcome (OrderRecord F) → Outcome (Option (OrderRecord F) × OrderTracker F)
  stored records (raised e) = raised e
  stored records (ok rec) = ok (some rec, insert rec.order_id rec records)

  abbrev update_found :
      OrderTracker F
      → BrokerOrder F
      → Time
      → Option (OrderRecord F)
      → Outcome (Option (OrderRecord F) × OrderTracker F)
  update_found records bo now none = ok (none, records)
  update_found records bo now (some rec) = stored records (apply rec bo now)

  unfoldable pub update :
      BrokerOrder F → Time → OrderTracker F → Outcome (Option (OrderRecord F) × OrderTracker F)
  update bo now records = update_found records bo now (lookup bo.broker_order_id records)
