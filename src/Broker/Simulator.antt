-- ===== src/Broker/Simulator.antt =====
-- broker/simulator.py: the broker of the backtest, which fills each order at once.
pub mod Balance
pub mod Holdings
pub mod Runs
use squeeze_hunter.Prelude.{
  ℕ, ◌+◌, ◌-◌, Bool, true, false, Option, none, some, List, [], ◌∷◌, Outcome, ok, raised,
  value_error, Exception, if◌then◌else◌, ltb, ◌==◌, ◌||◌, get_or,
}
use squeeze_hunter.Prelude.Int.{ℤ, pos}
use squeeze_hunter.Prelude.Dict.{Dict, lookup, insert, erase}
use squeeze_hunter.Prelude.Floats.{Floats, nought, of_nat, divide}
use squeeze_hunter.Broker.{
  Ticker, OrderId, Time, Side, Status, Quote, BrokerOrder, PositionSnapshot,
}
use squeeze_hunter.Broker.CostModel.{Fill, StockCostModel, simulate_buy, simulate_sell}

module _ (F : Type 0) where
  pub record Lot : Type 0 where
    pub qty : ℕ
    pub avg_price : F
    pub opened_at : Time

  pub record SimulatorBroker : Type 0 where
    pub cost_model : StockCostModel F
    pub cash : F
    pub equity : F
    pub positions : Dict Lot
    pub realized : Dict F
    pub last_marks : Dict F
    pub order_history : Dict (BrokerOrder F)

module _ {F : Type 0} where
  abbrev pub lot_qty : Option (Lot F) → ℕ
  lot_qty none = 0
  lot_qty (some lot) = lot.qty

  abbrev pub position_qty : SimulatorBroker F → Ticker → ℕ
  position_qty s ticker = lot_qty (lookup ticker s.positions)

  -- Snapshots of what is held.
  abbrev pub snapshots : Dict (Lot F) → List (PositionSnapshot F)
  snapshots [] = []
  snapshots (e ∷ d) =
      if ltb 0 e.1.qty
      then record { ticker = e.0; qty = pos e.1.qty; avg_cost = e.1.avg_price } ∷ snapshots d
      else snapshots d

  -- Nothing is ever open to cancel.
  pub cancel_order : SimulatorBroker F → OrderId → Bool
  cancel_order s id = false

  pub get_open_orders : SimulatorBroker F → List (BrokerOrder F)
  get_open_orders s = []

  unfoldable pub get_order : SimulatorBroker F → OrderId → Option (BrokerOrder F)
  get_order s id = lookup id s.order_history

module _ {F : Type 0} ⦃f : Floats F⦄ where
  abbrev lot_price : Option (Lot F) → F
  lot_price none = nought
  lot_price (some lot) = lot.avg_price

  -- The last mark, or the lot's average price where that is missing or not above zero.
  abbrev quoted : SimulatorBroker F → Ticker → Option F → F
  quoted s ticker none = lot_price (lookup ticker s.positions)
  quoted s ticker (some price) =
      if f.le price nought then lot_price (lookup ticker s.positions) else price

  pub fetch_quote : SimulatorBroker F → Ticker → ℕ → Quote F
  fetch_quote s ticker time_ns =
      let known = quoted s ticker (lookup ticker s.last_marks) in
      let price = if f.lt nought known then known else nought in
      record { ticker = ticker; bid = price; ask = price; last = price; timestamp_ns = time_ns }

  -- 1.0 stands in where neither a limit nor a position gives a price.
  unfoldable pub resolve_price : Option F → Option (Lot F) → F
  resolve_price (some limit) lot = limit
  resolve_price none (some lot) = lot.avg_price
  resolve_price none none = of_nat 1

  abbrev filled_order : OrderId → Ticker → Side → ℕ → Option F → Fill F → BrokerOrder F
  filled_order id ticker side qty limit fill = record {
    broker_order_id = id;
    ticker = ticker;
    side = side;
    qty = qty;
    limit_price = limit;
    status = Status.filled;
    filled_qty = qty;
    avg_fill_price = some fill.fill_price;
    commission_usd = fill.commission_usd;
  }

  -- The lot after a purchase. An average over no shares is a division by zero.
  unfoldable pub bought_lot : Option (Lot F) → ℕ → F → Time → Outcome (Lot F)
  bought_lot none qty price ts = ok (record { qty = qty; avg_price = price; opened_at = ts })
  bought_lot (some lot) qty price ts =
      elim (divide (f.add (f.mul lot.avg_price (of_nat lot.qty)) (f.mul price (of_nat qty)))
        (of_nat (lot.qty + qty))) [
          | raised e ↦ raised e
          | ok avg ↦ ok (record { qty = lot.qty + qty; avg_price = avg; opened_at = lot.opened_at })
        ]

  -- `id` is the new order's id, which the source makes from a random number. The cash is paid before
  -- the lot is averaged.
  unfoldable pub submit_buy :
      OrderId
      → Ticker
      → ℕ
      → Option F
      → Time
      → Bool
      → SimulatorBroker F
      → Outcome (BrokerOrder F) × SimulatorBroker F
  submit_buy id ticker qty limit ts is_open s =
      let existing = lookup ticker s.positions in
      let fill = simulate_buy s.cost_model (resolve_price limit existing) qty is_open in
      let cost = f.add (f.mul fill.fill_price (of_nat qty)) fill.commission_usd in
      let paid = record s { cash = f.sub s.cash cost } in
      let order = filled_order id ticker Side.buy qty limit fill in
      elim (bought_lot existing qty fill.fill_price ts) [
        | raised e ↦ (raised e, paid)
        | ok lot ↦ (
          ok order,
          record paid {
            positions = insert ticker lot paid.positions;
            order_history = insert id order paid.order_history;
          },
        )
      ]

  -- The sale out of a lot that has the shares.
  pub sell_from :
      Lot F
      → OrderId
      → Ticker
      → ℕ
      → Option F
      → Bool
      → SimulatorBroker F
      → BrokerOrder F × SimulatorBroker F
  sell_from lot id ticker qty limit is_open s =
      let fill = simulate_sell s.cost_model (resolve_price limit (some lot)) qty is_open in
      let proceeds = f.sub (f.mul fill.fill_price (of_nat qty)) fill.commission_usd in
      let realized_pl =
        f.sub (f.mul (f.sub fill.fill_price lot.avg_price) (of_nat qty)) fill.commission_usd in
      let order = filled_order id ticker Side.sell qty limit fill in
      let sold = record s {
        cash = f.add s.cash proceeds;
        realized =
            insert ticker (f.add (get_or (lookup ticker s.realized) nought) realized_pl) s.realized;
        order_history = insert id order s.order_history;
      } in
      (
        order,
        if lot.qty - qty == 0
            then record sold {
              positions = erase ticker s.positions;
              last_marks = erase ticker s.last_marks;
            }
            else record sold {
              positions = insert ticker (record lot { qty = lot.qty - qty }) s.positions;
            },
      )

  pub submit_sell :
      OrderId
      → Ticker
      → ℕ
      → Option F
      → Time
      → Bool
      → SimulatorBroker F
      → Outcome (BrokerOrder F) × SimulatorBroker F
  submit_sell id ticker qty limit ts is_open s = elim (lookup ticker s.positions) [
    | none ↦ (raised value_error, s)
    | some lot ↦ elim (ltb lot.qty qty) [
      | true ↦ (raised value_error, s)
      | false ↦ let (order, s') = sell_from lot id ticker qty limit is_open s in (ok order, s')
    ]
  ]

  -- `sum(mark * qty)` over the positions, in their order.
  abbrev notional_from : F → Dict F → Dict F → Dict (Lot F) → F
  notional_from acc marks last_marks [] = acc
  notional_from acc marks last_marks (e ∷ d) =
      let mark = get_or (lookup e.0 marks) (get_or (lookup e.0 last_marks) e.1.avg_price) in
      notional_from (f.add acc (f.mul mark (of_nat e.1.qty))) marks last_marks d

  abbrev remember : Dict F → Dict F → Dict F
  remember [] last_marks = last_marks
  remember (e ∷ marks) last_marks =
      remember marks (if f.lt nought e.1 then insert e.0 e.1 last_marks else last_marks)

  unfoldable pub mark_to_market : Dict F → SimulatorBroker F → SimulatorBroker F
  mark_to_market marks s =
      let last_marks = remember marks s.last_marks in
      record s {
        last_marks = last_marks;
        equity = f.add s.cash (notional_from nought marks last_marks s.positions);
      }

  pub gross_exposure_pct : Dict F → SimulatorBroker F → Outcome F
  gross_exposure_pct marks s =
      if f.le s.equity nought
      then ok nought
      else divide (notional_from nought marks s.last_marks s.positions) s.equity
