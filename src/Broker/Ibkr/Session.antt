-- ===== src/Broker/Ibkr/Session.antt =====
-- The calls of IBKRBroker in broker/ibkr.py. A call that raises keeps what it did before.
use squeeze_hunter.Prelude.{
  ℕ, zero, suc, Bool, true, false, not, ◌||◌, Option, none, some, List, [], ◌∷◌, Outcome, ok,
  raised, value_error, if◌then◌else◌, ltb, ◌+◌, map, contains,
}
use squeeze_hunter.Prelude.Int.{ℤ, pos}
use squeeze_hunter.Prelude.Floats.{Floats, nought}
use squeeze_hunter.Broker.{
  Ticker, OrderId, Time, Side, Status, Quote, BrokerOrder, PositionSnapshot,
}
use squeeze_hunter.Broker.Ibkr.{
  Account, ClientRef, Stock, NewOrder, MarketData, AccountValue, IbkrBroker, Client,
  translate_status, client_ref, broker_order_from_trade, finite_or_zero, make_stock, sum_rows,
  aggregate, long_only, find_open_by_ref, find_by_id, submitted_as, unless_zero,
}
use squeeze_hunter.Execution.Lifecycle.{is_transient}

module _ {F W : Type 0} ⦃f : Floats F⦄ (c : Client F W) where
  -- An account that the login does not manage is refused.
  abbrev refused : Option Account → List Account → Bool
  refused none managed = false
  refused (some account) [] = false
  refused (some account) (m ∷ managed) = not (contains account (m ∷ managed))

  unfoldable pub connect : IbkrBroker F → W → Outcome (Unit {0}) × W
  connect s w =
      let (connected, w') = c.connect w in
      elim connected [
        | raised e ↦ (raised e, w')
        | ok _ ↦
            let (subscribed, w'') = c.req_account_updates s.account w' in
            elim subscribed [
              | raised e ↦ (raised e, w'')
              | ok _ ↦
                  if refused s.account (c.managed_accounts w'')
                  then (raised value_error, c.disconnect w'')
                  else (ok tt, w'')
            ]
      ]

  -- At most as many waits as given, until a bid or a last price has come.
  unfoldable pub wait_for_data : ℕ → Stock → W → W
  wait_for_data zero stock w = w
  wait_for_data (suc n) stock w =
      let w' = c.sleep w in
      let waited = wait_for_data n stock w' in
      if f.is_finite (c.market_data stock w').last || f.is_finite (c.market_data stock w').bid
      then w'
      else waited

  abbrev is_stale : Option Time → Time → Bool
  is_stale none now = true
  is_stale (some t) now = ltb (t + 120_000_000) now

  abbrev quote_with : Ticker → F → F → F → ℕ → Quote F
  quote_with ticker bid ask last ns = record {
    ticker = ticker;
    bid = bid;
    ask = ask;
    last = last;
    timestamp_ns = ns;
  }

  abbrev last_or_close : F → F → F
  last_or_close last close = if f.eq last nought then close else last

  -- A quote that is too old is zeros.
  abbrev quote_of : Ticker → MarketData F → W → Quote F
  quote_of ticker d w =
      if is_stale d.time (c.clock w)
      then quote_with ticker nought nought nought (c.time_ns w)
      else quote_with ticker (finite_or_zero d.bid) (finite_or_zero d.ask)
          (last_or_close (finite_or_zero d.last) (finite_or_zero d.close)) (c.time_ns w)

  unfoldable pub fetch_quote : Ticker → IbkrBroker F → W → Outcome (Quote F) × W
  fetch_quote ticker s w =
      let stock = make_stock s ticker in
      let (qualified, w') = c.qualify_contracts stock w in
      elim qualified [
        | raised e ↦ (raised e, w')
        | ok _ ↦
            let (asked, w'') = c.req_mkt_data stock w' in
            elim asked [
              | raised e ↦ (raised e, w'')
              | ok _ ↦
                  let now = wait_for_data 40 stock w'' in
                  (ok (quote_of ticker (c.market_data stock now) now), now)
            ]
      ]

  abbrev pub truthy : Option F → Option F
  truthy none = none
  truthy (some limit) = unless_zero limit

  -- An order placed before that is not open any more is told as pending.
  abbrev told : OrderId → Ticker → Side → ℕ → Option F → Status → BrokerOrder F
  told id ticker side qty limit status = record {
    broker_order_id = id;
    ticker = ticker;
    side = side;
    qty = qty;
    limit_price = limit;
    status = status;
    filled_qty = 0;
    avg_fill_price = none;
    commission_usd = nought;
  }

  -- A new order, whose key is kept when the client has taken it.
  unfoldable pub place_new :
      Ticker
      → Side
      → ℕ
      → Option F
      → ClientRef
      → IbkrBroker F
      → W
      → Outcome (BrokerOrder F) × IbkrBroker F × W
  place_new ticker side qty limit ref s w =
      let stock = make_stock s ticker in
      let (qualified, w') = c.qualify_contracts stock w in
      elim qualified [
        | raised e ↦ (raised e, s, w')
        | ok _ ↦
            let order : NewOrder F = record {
              action = side;
              qty = qty;
              limit_price = truthy limit;
              order_ref = ref;
            } in
            let (placed, w'') = c.place_order stock order w' in
            elim placed [
              | raised e ↦ (raised e, s, w'')
              | ok trade ↦ (
                ok (told trade.order_id ticker side qty limit (translate_status trade.status)),
                record s { submitted_refs = (ref, trade.order_id) ∷ s.submitted_refs },
                w'',
              )
            ]
      ]

  -- `_place`
  unfoldable pub place :
      Ticker
      → Side
      → ℕ
      → Option F
      → Time
      → IbkrBroker F
      → W
      → Outcome (BrokerOrder F) × IbkrBroker F × W
  place ticker side qty limit ts s w =
      let ref = client_ref ticker side qty ts in
      elim (find_open_by_ref ref (c.open_trades w)) [
        | some existing ↦ (ok (broker_order_from_trade existing), s, w)
        | none ↦ elim (submitted_as ref s.submitted_refs) [
          | some id ↦ (ok (told id ticker side qty limit Status.pending), s, w)
          | none ↦ place_new ticker side qty limit ref s w
        ]
      ]

  unfoldable pub submit_buy :
      Ticker → ℕ → Option F → Time → IbkrBroker F → W → Outcome (BrokerOrder F) × IbkrBroker F × W
  submit_buy ticker qty limit ts = place ticker Side.buy qty limit ts

  unfoldable pub submit_sell :
      Ticker → ℕ → Option F → Time → IbkrBroker F → W → Outcome (BrokerOrder F) × IbkrBroker F × W
  submit_sell ticker qty limit ts = place ticker Side.sell qty limit ts

  unfoldable pub cancel_order : OrderId → W → Outcome Bool × W
  cancel_order id w = elim (find_by_id id (c.open_trades w)) [
    | none ↦ (ok false, w)
    | some trade ↦
        let (done, w') = c.cancel_order trade w in
        elim done [ ok _ ↦ (ok true, w') | raised e ↦ (raised e, w') ]
  ]

  -- The positions are asked for afresh; a client that does not answer in time raises.
  unfoldable pub get_position_qty : Ticker → IbkrBroker F → W → Outcome ℤ × W
  get_position_qty ticker s w =
      let (fresh, w') = c.req_positions w in
      elim fresh [
        | ok _ ↦ (ok (sum_rows s.account ticker (pos 0) (c.positions w')), w')
        | raised e ↦ (raised e, w')
      ]

  unfoldable pub get_positions : IbkrBroker F → W → Outcome (List (PositionSnapshot F)) × W
  get_positions s w =
      let (fresh, w') = c.req_positions w in
      elim fresh [
        | ok _ ↦ (ok (long_only (aggregate s.account [] (c.positions w'))), w')
        | raised e ↦ (raised e, w')
      ]

  unfoldable pub get_open_orders : W → Outcome (List (BrokerOrder F)) × W
  get_open_orders w = (ok (map broker_order_from_trade (c.open_trades w)), w)

  unfoldable pub get_order : OrderId → W → Outcome (Option (BrokerOrder F)) × W
  get_order id w = elim (find_by_id id (c.trades w)) [
    | none ↦ (ok none, w)
    | some trade ↦ (ok (some (broker_order_from_trade trade)), w)
  ]

  -- The first net liquidation in dollars.
  unfoldable pub equity_of : List (AccountValue F) → Option F
  equity_of [] = none
  equity_of (AccountValue.net_liquidation value ∷ values) = value
  equity_of (AccountValue.other_value ∷ values) = equity_of values

  unfoldable pub get_equity_usd : W → Outcome (Option F) × W
  get_equity_usd w = elim (c.account_values w) [
    | ok values ↦ (ok (equity_of values), w)
    | raised e ↦ if is_transient e then (ok none, w) else (raised e, w)
  ]
