-- ===== src/Broker/Ibkr.antt =====
-- broker/ibkr.py: the adapter of Interactive Brokers, over the client of ib_async.
pub mod Session
pub mod Holdings
pub mod Once
use squeeze_hunter.Prelude.{
  ℕ, zero, suc, ◌*◌, ◌^◌, Bool, true, false, not, ◌&&◌, ◌||◌, Option, none, some, List, [], ◌∷◌,
  Outcome, ok, raised, value_error, if◌then◌else◌, ltb, ◌==◌, ◌+◌, ◌/◌, map, contains, get_or,
}
use squeeze_hunter.Prelude.Int.{ℤ, pos, add, ltb_ℤ}
use squeeze_hunter.Prelude.Dict.{Dict, lookup, insert}
use squeeze_hunter.Prelude.Floats.{Floats, nought, of_nat}
use squeeze_hunter.Broker.{
  Ticker, OrderId, Time, Side, Status, Quote, BrokerOrder, PositionSnapshot,
}

-- The names of an account and of an exchange, which are only compared. The empty text is `none`.
abbrev pub Account : Type 0
Account = ℕ

abbrev pub Exchange : Type 0
Exchange = ℕ

-- The statuses of an order at TWS that the adapter knows, and any other.
pub data TwsStatus : Type 0 where
  pending_submit api_pending pre_submitted submitted pending_cancel filled cancelled api_cancelled
        inactive validation_error unlisted :
      TwsStatus

-- `_translate_status`
unfoldable pub translate_status : TwsStatus → Status
translate_status TwsStatus.pending_submit = Status.pending
translate_status TwsStatus.api_pending = Status.pending
translate_status TwsStatus.pre_submitted = Status.routed
translate_status TwsStatus.submitted = Status.routed
translate_status TwsStatus.pending_cancel = Status.routed
translate_status TwsStatus.filled = Status.filled
translate_status TwsStatus.cancelled = Status.cancelled
translate_status TwsStatus.api_cancelled = Status.cancelled
translate_status TwsStatus.inactive = Status.rejected
translate_status TwsStatus.validation_error = Status.rejected
translate_status TwsStatus.unlisted = Status.pending

-- A routed order that has filled shares is partial.
abbrev pub with_fills : ℕ → Status → Status
with_fills zero status = status
with_fills (suc n) Status.routed = Status.partial
with_fills (suc n) status = status

-- The key of one logical order. The text that `_client_ref` makes of it tells these four apart.
pub record ClientRef : Type 0 where
  pub side : Side
  pub ticker : Ticker
  pub qty : ℕ
  pub second : ℕ

abbrev pub same_side : Side → Side → Bool
same_side Side.buy Side.buy = true
same_side Side.sell Side.sell = true
same_side s t = false

abbrev pub same_ref : ClientRef → ClientRef → Bool
same_ref r q =
    same_side r.side q.side && (r.ticker == q.ticker) && (r.qty == q.qty) && (r.second == q.second)

abbrev pub has_ref : ClientRef → Option ClientRef → Bool
has_ref ref none = false
has_ref ref (some r) = same_ref ref r

-- `_client_ref`
unfoldable pub client_ref : Ticker → Side → ℕ → Time → ClientRef
client_ref ticker side qty ts = record {
  side = side;
  ticker = ticker;
  qty = qty;
  second = ts / 1_000_000;
}

pub record Stock : Type 0 where
  pub symbol : Ticker
  pub primary_exchange : Option Exchange

-- The port that the environment names.
pub data Port : Type 0 where
  unset paper_default named : Port

unfoldable pub require_live_port : Port → Outcome (Unit {0})
require_live_port Port.unset = raised value_error
require_live_port Port.paper_default = raised value_error
require_live_port Port.named = ok tt

module _ (F : Type 0) where
  -- What the adapter reads of a Trade. Quantities are whole.
  pub record Trade : Type 0 where
    pub order_id : OrderId
    pub order_ref : Option ClientRef
    pub symbol : Ticker
    pub action : Side
    pub total_quantity : ℕ
    pub lmt_price : Option F
    pub status : TwsStatus
    pub filled : ℕ
    pub avg_fill_price : F

  -- A LimitOrder, or a MarketOrder where there is no limit.
  pub record NewOrder : Type 0 where
    pub action : Side
    pub qty : ℕ
    pub limit_price : Option F
    pub order_ref : ClientRef

  pub record PositionRow : Type 0 where
    pub symbol : Option Ticker
    pub account : Option Account
    pub position : ℤ
    pub avg_cost : F

  -- The fields of a market-data Ticker. One that has not arrived is NaN.
  pub record MarketData : Type 0 where
    pub bid : F
    pub ask : F
    pub last : F
    pub close : F
    pub time : Option Time

  -- A value of the account that is the net liquidation in dollars, or another one. A text that is no
  -- number is `none`.
  pub data AccountValue : Type 0 where
    net_liquidation : Option F → AccountValue
    other_value : AccountValue

  pub record IbkrBroker : Type 0 where
    pub account : Option Account
    pub primary_exchange_overrides : Dict (Option Exchange)
    pub primary_exchange_defaults : Dict (Option Exchange)
    pub submitted_refs : List (ClientRef × OrderId)

-- The client of ib_async, on a state of its own.
pub record Client (F W : Type 0) : Type 0 where
  pub connect : W → Outcome (Unit {0}) × W
  pub req_account_updates : Option Account → W → Outcome (Unit {0}) × W
  pub managed_accounts : W → List Account
  pub disconnect : W → W
  pub is_connected : W → Bool
  pub qualify_contracts : Stock → W → Outcome (Unit {0}) × W
  pub req_mkt_data : Stock → W → Outcome (Unit {0}) × W
  pub market_data : Stock → W → MarketData F
  pub open_trades : W → List (Trade F)
  pub trades : W → List (Trade F)
  pub place_order : Stock → NewOrder F → W → Outcome (Trade F) × W
  pub cancel_order : Trade F → W → Outcome (Unit {0}) × W
  pub req_positions : W → Outcome (Unit {0}) × W
  pub positions : W → List (PositionRow F)
  pub account_values : W → Outcome (List (AccountValue F))
  pub sleep : W → W
  pub clock : W → Time
  pub time_ns : W → ℕ

-- The value of a lookup in the table of the exchanges: the overrides come first.
abbrev pub primary_of : Option (Option Exchange) → Option (Option Exchange) → Option Exchange
primary_of (some primary) default = primary
primary_of none default = get_or default none

-- A row of another account is left out, where one is configured and the row names one.
abbrev pub other_account : Option Account → Option Account → Bool
other_account (some account) (some row) = not (row == account)
other_account account row = false

abbrev pub is_symbol : Ticker → Option Ticker → Bool
is_symbol ticker none = false
is_symbol ticker (some symbol) = symbol == ticker

abbrev pub is_zero : ℤ → Bool
is_zero q = not (ltb_ℤ q (pos 0)) && not (ltb_ℤ (pos 0) q)

module _ {F : Type 0} ⦃f : Floats F⦄ where
  -- `_UNSET_DOUBLE`
  abbrev unset_double : F
  unset_double = of_nat (17976931348623157 * 10 ^ 292)

  -- `_limit_or_none`; what is no number is `none`.
  unfoldable pub limit_or_none : Option F → Option F
  limit_or_none none = none
  limit_or_none (some value) =
      if not (f.is_finite value)
        || f.le (f.quotient unset_double (of_nat 2)) value
        || f.le value nought
      then none
      else some value

  abbrev pub unless_zero : F → Option F
  unless_zero x = if f.eq x nought then none else some x

  -- `_broker_order_from_trade`
  unfoldable pub broker_order_from_trade : Trade F → BrokerOrder F
  broker_order_from_trade t = record {
    broker_order_id = t.order_id;
    ticker = t.symbol;
    side = t.action;
    qty = t.total_quantity;
    limit_price = limit_or_none t.lmt_price;
    status = with_fills t.filled (translate_status t.status);
    filled_qty = t.filled;
    avg_fill_price = unless_zero t.avg_fill_price;
    commission_usd = nought;
  }

  -- `_finite_or_zero`
  unfoldable pub finite_or_zero : F → F
  finite_or_zero x = if f.is_finite x then x else nought

  -- `_make_stock`
  unfoldable pub make_stock : IbkrBroker F → Ticker → Stock
  make_stock s ticker = record {
    symbol = ticker;
    primary_exchange =
        primary_of (lookup ticker s.primary_exchange_overrides)
          (lookup ticker s.primary_exchange_defaults);
  }

  unfoldable pub sum_rows : Option Account → Ticker → ℤ → List (PositionRow F) → ℤ
  sum_rows account ticker total [] = total
  sum_rows account ticker total (row ∷ rows) =
      sum_rows account ticker
        (if not (is_symbol ticker row.symbol) || other_account account row.account
          then total
          else add total row.position)
        rows

  -- The quantity with the row, and the cost of a share, blended.
  abbrev pub blended : ℤ × F → ℤ → F → ℤ × F
  blended (prev_qty, prev_cost) qty cost =
      let total = add prev_qty qty in
      (
        total,
        if is_zero total
            then nought
            else f.quotient
                (f.add (f.mul (f.of_int prev_qty) prev_cost) (f.mul (f.of_int qty) cost))
                (f.of_int total),
      )

  abbrev pub add_row : Option Account → PositionRow F → Option Ticker → Dict (ℤ × F) → Dict (ℤ × F)
  add_row account row none agg = agg
  add_row account row (some symbol) agg =
      if other_account account row.account || is_zero row.position
      then agg
      else insert symbol
          (blended (get_or (lookup symbol agg) (pos 0, nought)) row.position row.avg_cost) agg

  unfoldable pub aggregate : Option Account → Dict (ℤ × F) → List (PositionRow F) → Dict (ℤ × F)
  aggregate account agg [] = agg
  aggregate account agg (row ∷ rows) = aggregate account (add_row account row row.symbol agg) rows

  unfoldable pub long_only : Dict (ℤ × F) → List (PositionSnapshot F)
  long_only [] = []
  long_only ((t, (q, c)) ∷ agg) =
      if ltb_ℤ (pos 0) q
      then record { ticker = t; qty = q; avg_cost = c } ∷ long_only agg
      else long_only agg

  -- `_find_open_by_ref`
  unfoldable pub find_open_by_ref : ClientRef → List (Trade F) → Option (Trade F)
  find_open_by_ref ref [] = none
  find_open_by_ref ref (t ∷ ts) =
      if has_ref ref t.order_ref then some t else find_open_by_ref ref ts

  unfoldable pub find_by_id : OrderId → List (Trade F) → Option (Trade F)
  find_by_id id [] = none
  find_by_id id (t ∷ ts) = if t.order_id == id then some t else find_by_id id ts

unfoldable pub submitted_as : ClientRef → List (ClientRef × OrderId) → Option OrderId
submitted_as ref [] = none
submitted_as ref ((r, id) ∷ refs) = if same_ref ref r then some id else submitted_as ref refs
