-- ===== src/Broker/Simulator/Balance.antt =====
-- The share counts of broker/simulator.py: what was bought less what was sold, and never less.
use squeeze_hunter.Prelude.{
  ℕ, ◌+◌, ◌-◌, ◌≤◌, ◌<◌, ◌≡◌, ◌⊎◌, ◌∙◌, refl, inl, inr, Bool, Option, none, some, ok, raised,
  value_error, Exception, if◌then◌else◌, ◌==◌, ltb, Bool-cases, Option-cases, Outcome-cases, arith,
}
use squeeze_hunter.Prelude.Dict.{
  lookup, insert, erase, IsDict, lookup-insert, lookup-erase_ne, lookup-erase_self, insert-IsDict,
  erase-IsDict,
}
use squeeze_hunter.Prelude.Floats.{Floats}
use squeeze_hunter.Broker.{Side, Status, Ticker, OrderId, Time, BrokerOrder}
use squeeze_hunter.Broker.CostModel.{simulate_buy}
use squeeze_hunter.Broker.Simulator.{
  Lot, SimulatorBroker, lot_qty, position_qty, bought_lot, resolve_price, filled_order, sell_from,
  submit_buy, submit_sell,
}

module _ {F : Type 0} ⦃f : Floats F⦄ where
  -- After the change the ticker has n shares, and each other one what it had.
  abbrev pub Counts : SimulatorBroker F → SimulatorBroker F → Ticker → ℕ → Type 0
  Counts before after ticker n =
      (t : Ticker) → position_qty after t ≡ (if t == ticker then n else position_qty before t)

  -- A filled order of this ticker and side for this quantity.
  abbrev pub IsFill : BrokerOrder F → Ticker → Side → ℕ → Type 0
  IsFill o ticker side qty =
      (o.ticker ≡ ticker) × (o.side ≡ side) × (o.filled_qty ≡ qty) × (o.status ≡ Status.filled)

  sell_from-IsFill :
      (lot : Lot F) (id : OrderId) (ticker : Ticker) (qty : ℕ) (limit : Option F) (open_5min : Bool)
      (s : SimulatorBroker F)
      → IsFill (sell_from lot id ticker qty limit open_5min s).0 ticker Side.sell qty
  unfolding sell_from
  sell_from-IsFill lot id ticker qty limit open_5min s = (refl, refl, refl, refl)

  pub bought_lot-qty :
      (existing : Option (Lot F)) (qty : ℕ) (price : F) (ts : Time) (lot : Lot F)
      → bought_lot existing qty price ts ≡ ok lot
      → lot.qty ≡ lot_qty existing + qty
  unfolding bought_lot
  bought_lot-qty none qty price ts lot e = ground arith
  bought_lot-qty (some held) qty price ts lot e = ground arith

  insert-qty :
      (t ticker : Ticker) (lot : Lot F) (s : SimulatorBroker F)
      → lot_qty (lookup t (insert ticker lot s.positions))
        ≡ (if t == ticker then lot.qty else position_qty s t)
  insert-qty t ticker lot s = ground (arith, lookup-insert t ticker lot s.positions)

  erase-qty :
      (t ticker : Ticker) (s : SimulatorBroker F)
      → IsDict s.positions
      → lot_qty (lookup t (erase ticker s.positions))
        ≡ (if t == ticker then 0 else position_qty s t)
  erase-qty t ticker s d =
      let others = lookup-erase_ne t ticker s.positions in
      let self = lookup-erase_self ticker s.positions d in
      elim (Bool-cases (t == ticker)) [
        | inl e ↦ let same : t ≡ ticker = ground arith in rw (e, same, self) refl
        | inr e ↦ rw (e, others (ground arith)) refl
      ]

  sell_from-Counts :
      (lot : Lot F) (id : OrderId) (ticker : Ticker) (qty : ℕ) (limit : Option F) (open_5min : Bool)
      (s : SimulatorBroker F)
      → IsDict s.positions
      → let s' = (sell_from lot id ticker qty limit open_5min s).1 in
        Counts s s' ticker (lot.qty - qty) × IsDict s'.positions
  unfolding sell_from
  sell_from-Counts lot id ticker qty limit open_5min s d = elim (Bool-cases (lot.qty - qty == 0)) [
    | inl e ↦
        let gone : lot.qty - qty ≡ 0 = ground arith in
        rw (sell_from, gone) ((λ t. erase-qty t ticker s d), erase-IsDict ticker s.positions d)
    | inr e ↦
        let lot' : Lot F = record lot { qty = lot.qty - qty } in
        rw (sell_from, e)
          ((λ t. insert-qty t ticker lot' s), insert-IsDict ticker lot' s.positions d)
  ]

  -- In a book with one lot for each ticker, `submit_sell` raises ValueError and changes nothing when
  -- there is no lot or too few shares; otherwise it returns a filled order for the quantity, takes
  -- it off the ticker's shares, and leaves the other tickers' shares alone.
  pub submit_sell-Counts :
      (id : OrderId) (ticker : Ticker) (qty : ℕ) (limit : Option F) (ts : Time) (open_5min : Bool)
      (s : SimulatorBroker F)
      → IsDict s.positions
      → let (r, s') = submit_sell id ticker qty limit ts open_5min s in
        ((r ≡ raised value_error)
          × (s' ≡ s)
          × ((lookup ticker s.positions ≡ none) ⊎ (position_qty s ticker < qty)))
        ⊎ ((o : BrokerOrder F) × (r ≡ ok o)
            × (qty ≤ position_qty s ticker)
            × IsFill o ticker Side.sell qty
            × Counts s s' ticker (position_qty s ticker - qty)
            × IsDict s'.positions)
  unfolding submit_sell
  submit_sell-Counts id ticker qty limit ts open_5min s d =
      elim (Option-cases (lookup ticker s.positions)) [
        | inl e ↦ rw (submit_sell, e) (inl (refl, refl, inl refl))
        | inr (lot, e) ↦ elim (Bool-cases (ltb lot.qty qty)) [
          | inl few ↦ rw (submit_sell, e, few) (inl (refl, refl, inr (ground arith)))
          | inr enough ↦
              let (counts, dict) = sell_from-Counts lot id ticker qty limit open_5min s d in
              let order = (sell_from lot id ticker qty limit open_5min s).0 in
              rw (submit_sell, e, enough)
                (inr (
                  order,
                  refl,
                  ground arith,
                  sell_from-IsFill lot id ticker qty limit open_5min s,
                  counts,
                  dict,
                ))
        ]
      ]

  -- `submit_buy` pays first. If averaging the lot raises, no shares change; otherwise a filled order
  -- is returned and its quantity added to the ticker's shares, the others being left alone.
  pub submit_buy-Counts :
      (id : OrderId) (ticker : Ticker) (qty : ℕ) (limit : Option F) (ts : Time) (open_5min : Bool)
      (s : SimulatorBroker F)
      → IsDict s.positions
      → let (r, s') = submit_buy id ticker qty limit ts open_5min s in
        ((e : Exception) × (r ≡ raised e) × (s'.positions ≡ s.positions))
        ⊎ ((o : BrokerOrder F) × (r ≡ ok o)
            × IsFill o ticker Side.buy qty
            × Counts s s' ticker (position_qty s ticker + qty)
            × IsDict s'.positions)
  unfolding submit_buy
  submit_buy-Counts id ticker qty limit ts open_5min s d =
      let existing = lookup ticker s.positions in
      let fill = simulate_buy s.cost_model (resolve_price limit existing) qty open_5min in
      elim (Outcome-cases (bought_lot existing qty fill.fill_price ts)) [
        | inr (x, e) ↦ rw (submit_buy, e) (inl (x, refl, refl))
        | inl (lot, e) ↦
            let more = bought_lot-qty existing qty fill.fill_price ts lot e in
            let order = filled_order id ticker Side.buy qty limit fill in
            rw (submit_buy, e)
              (inr (
                order,
                refl,
                (refl, refl, refl, refl),
                (λ t. insert-qty t ticker lot s ∙ rw more refl),
                insert-IsDict ticker lot s.positions d,
              ))
      ]
