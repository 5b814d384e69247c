-- ===== src/Broker/Simulator/Holdings.antt =====
-- The tickers that the simulator of broker/simulator.py holds, with their shares.
use squeeze_hunter.Prelude.{
  ℕ, ◌+◌, ◌-◌, ◌≡◌, refl, Bool, Option, none, some, ok, if◌then◌else◌, ◌==◌, ltb, arith, inl, inr,
  Bool-cases, Option-cases, Outcome-cases,
}
use squeeze_hunter.Prelude.Dict.{
  Dict, lookup, erase, IsDict, lookup-insert, lookup-erase_ne, lookup-erase_self, insert-IsDict,
  erase-IsDict,
}
use squeeze_hunter.Prelude.Floats.{Floats}
use squeeze_hunter.Broker.{Ticker, OrderId, Time, BrokerOrder}
use squeeze_hunter.Broker.CostModel.{simulate_buy}
use squeeze_hunter.Broker.Simulator.{
  Lot, SimulatorBroker, lot_qty, resolve_price, bought_lot, submit_buy, sell_from, submit_sell,
  mark_to_market,
}
use squeeze_hunter.Broker.Simulator.Balance.{bought_lot-qty}

abbrev pub some_if : ℕ → Option ℕ
some_if n = if n == 0 then none else some n

module _ {F : Type 0} where
  abbrev pub qty_of_lot : Option (Lot F) → Option ℕ
  qty_of_lot none = none
  qty_of_lot (some lot) = some lot.qty

  -- The shares of a ticker that the simulator holds, if it holds the ticker.
  abbrev pub holding : Ticker → SimulatorBroker F → Option ℕ
  holding t s = qty_of_lot (lookup t s.positions)

module _ {F : Type 0} ⦃f : Floats F⦄ where
  pub submit_buy-holding :
      (id : OrderId) (ticker : Ticker) (qty : ℕ) (limit : Option F) (ts : Time) (open_5min : Bool)
      (s : SimulatorBroker F) (o : BrokerOrder F)
      → IsDict s.positions
      → (submit_buy id ticker qty limit ts open_5min s).0 ≡ ok o
      → let s' = (submit_buy id ticker qty limit ts open_5min s).1 in
        ((j : Ticker)
          → holding j s' ≡ (
              if j == ticker
              then some (lot_qty (lookup ticker s.positions) + qty)
              else holding j s))
        × IsDict s'.positions
  unfolding submit_buy
  submit_buy-holding id ticker qty limit ts open_5min s o d returned =
      let existing = lookup ticker s.positions in
      let fill = simulate_buy s.cost_model (resolve_price limit existing) qty open_5min in
      elim (Outcome-cases (bought_lot existing qty fill.fill_price ts)) [
        | inr (x, e) ↦ let no = rw (submit_buy, e) at returned in absurd cc
        | inl (lot, e) ↦
            let more = bought_lot-qty existing qty fill.fill_price ts lot e in
            rw (submit_buy, e)
              (
                (λ j. rw (lookup-insert j ticker lot s.positions) (ground arith)),
                insert-IsDict ticker lot s.positions d,
              )
      ]

  sell_from-holding :
      (lot : Lot F) (id : OrderId) (ticker : Ticker) (qty : ℕ) (limit : Option F) (open_5min : Bool)
      (s : SimulatorBroker F)
      → IsDict s.positions
      → let s' = (sell_from lot id ticker qty limit open_5min s).1 in
        ((j : Ticker)
          → holding j s' ≡ (if j == ticker then some_if (lot.qty - qty) else holding j s))
        × IsDict s'.positions
  unfolding sell_from
  sell_from-holding lot id ticker qty limit open_5min s d = elim (Bool-cases (lot.qty - qty == 0)) [
    | inl e ↦
        let gone : (j : Ticker)
            → lookup j (erase ticker s.positions)
              ≡ (if j == ticker then none else lookup j s.positions) =
          λ j.
            ground (
              arith,
              lookup-erase_ne j ticker s.positions,
              lookup-erase_self ticker s.positions d,
            ) in
        rw (sell_from, e)
          (
            (λ j. let now_gone = gone j in rw now_gone (ground arith)),
            erase-IsDict ticker s.positions d,
          )
    | inr e ↦
        let lot' : Lot F = record lot { qty = lot.qty - qty } in
        rw (sell_from, e)
          (
            (λ j. rw (lookup-insert j ticker lot' s.positions) (ground arith)),
            insert-IsDict ticker lot' s.positions d,
          )
  ]

  pub submit_sell-holding :
      (id : OrderId) (ticker : Ticker) (qty n : ℕ) (limit : Option F) (ts : Time) (open_5min : Bool)
      (s : SimulatorBroker F) (o : BrokerOrder F)
      → IsDict s.positions
      → holding ticker s ≡ some n
      → (submit_sell id ticker qty limit ts open_5min s).0 ≡ ok o
      → let s' = (submit_sell id ticker qty limit ts open_5min s).1 in
        ((j : Ticker) → holding j s' ≡ (if j == ticker then some_if (n - qty) else holding j s))
        × IsDict s'.positions
  unfolding submit_sell
  submit_sell-holding id ticker qty n limit ts open_5min s o d has_n returned =
      elim (Option-cases (lookup ticker s.positions)) [
        | inl e ↦ let no = rw (submit_sell, e) at returned in absurd cc
        | inr (lot, e) ↦ elim (Bool-cases (ltb lot.qty qty)) [
          | inl few ↦ let no = rw (submit_sell, e, few) at returned in absurd cc
          | inr enough ↦
              let (holds, dict) = sell_from-holding lot id ticker qty limit open_5min s d in
              let same : lot.qty ≡ n = let h = rw e at has_n in cc in
              rw (submit_sell, e, enough)
                ((λ j. let now_holds = holds j in rw⁻¹ same now_holds), dict)
        ]
      ]

  -- Marking moves no shares.
  pub mark_to_market-positions :
      (marks : Dict F) (s : SimulatorBroker F) → (mark_to_market marks s).positions ≡ s.positions
  unfolding mark_to_market
  mark_to_market-positions marks s = refl
