-- ===== src/Backtest/InStep.antt =====
-- The book of backtest/runner.py and its simulator hold the same shares, day after day.
use squeeze_hunter.Prelude.{
  ℕ, ◌-◌, ◌≡◌, ◌<◌, refl, sym, ◌∙◌, max, min, true, false, none, some, List, [], ◌∷◌, IfOk,
  >>=-IfOk, if◌then◌else◌, ◌==◌, contains, map, arith, inl, inr, Bool-cases, Option-cases,
}
use squeeze_hunter.Prelude.Dict.{
  lookup, insert, erase, IsDict, lookup-insert, lookup-erase_ne, lookup-erase_self, insert-IsDict,
  erase-IsDict,
}
use squeeze_hunter.Prelude.Int.{pos_part}
use squeeze_hunter.Prelude.Floats.{Floats, nought, of_nat, divide, floor_divide}
use squeeze_hunter.Broker.{Ticker, Time}
use squeeze_hunter.Broker.Simulator.{
  SimulatorBroker, lot_qty, position_qty, submit_buy, submit_sell,
}
use squeeze_hunter.Broker.Simulator.Holdings.{
  holding, some_if, submit_buy-holding, submit_sell-holding,
}
use squeeze_hunter.Risk.Stops.{Action}
use squeeze_hunter.Execution.Decisions.{ExitDecision}
use squeeze_hunter.Execution.Decisions.Exits.{OrderedBy}
use squeeze_hunter.Execution.Book.{Position, Book, new_position_meta, realized_pnl}
use squeeze_hunter.Execution.Proposals.{EntryDecision}
use squeeze_hunter.Execution.Reconcile.Adoption.{book_qty}
use squeeze_hunter.Backtest.{
  Backtest, BacktestInputs, recent_bars, is_exit, is_hold, sell_on, price_or, end_of, buy_at_open,
  fill_entry, fill_entries,
}

some_if_zero : (n : ℕ) → n ≡ 0 → some_if n ≡ none
some_if_zero n h = ground arith

some_if_pos : (n : ℕ) → 0 < n → some_if n ≡ some n
some_if_pos n h = ground arith

module _ {F : Type 0} where
  -- The same tickers with the same numbers of shares, each ticker once.
  pub record IsInStep (book : Book F) (broker : SimulatorBroker F) : Type 0 where
    pub same_shares : (j : Ticker) → book_qty j book ≡ holding j broker
    pub book_dict : IsDict book
    pub lots_dict : IsDict broker.positions

  abbrev pub tickers_of : List (EntryDecision F) → List Ticker
  tickers_of ds = map (λ d. d.ticker) ds

  -- Different tickers, none of them held.
  abbrev pub AreNew : List (EntryDecision F) → SimulatorBroker F → Type 0
  AreNew [] broker = Unit
  AreNew (d ∷ ds) broker =
      (holding d.ticker broker ≡ none)
      × (contains d.ticker (tickers_of ds) ≡ false)
      × AreNew ds broker

  lot_qty-none :
      (t : Ticker) (b : SimulatorBroker F) → holding t b ≡ none → lot_qty (lookup t b.positions) ≡ 0
  lot_qty-none t b h = elim (Option-cases (lookup t b.positions)) [
    | inl e ↦ rw e refl
    | inr (lot, e) ↦ let no = rw e at h in absurd cc
  ]

  lot_qty-some :
      (t : Ticker) (n : ℕ) (b : SimulatorBroker F)
      → holding t b ≡ some n
      → lot_qty (lookup t b.positions) ≡ n
  lot_qty-some t n b h = elim (Option-cases (lookup t b.positions)) [
    | inl e ↦ let no = rw e at h in absurd cc
    | inr (lot, e) ↦ let same = rw e at h in rw e cc
  ]

  AreNew-kept :
      (t : Ticker) (ds : List (EntryDecision F)) (b b' : SimulatorBroker F)
      → ((j : Ticker) → (j == t) ≡ false → holding j b' ≡ holding j b)
      → contains t (tickers_of ds) ≡ false
      → AreNew ds b
      → AreNew ds b'
  AreNew-kept t [] b b' same other new = tt
  AreNew-kept t (d ∷ ds) b b' same other new =
      let reads = same d.ticker (ground arith) in
      (reads ∙ new.0, new.1, AreNew-kept t ds b b' same (ground arith) new.2)

  pub AreNew-same :
      (ds : List (EntryDecision F)) (b b' : SimulatorBroker F)
      → ((j : Ticker) → holding j b' ≡ holding j b)
      → AreNew ds b
      → AreNew ds b'
  AreNew-same [] b b' same new = tt
  AreNew-same (d ∷ ds) b b' same new =
      (same d.ticker ∙ new.0, new.1, AreNew-same ds b b' same new.2)

  pub insert-book_qty :
      (j t : Ticker) (meta : Position F) (book : Book F)
      → book_qty j (insert t meta book) ≡ (if j == t then some meta.qty else book_qty j book)
  insert-book_qty j t meta book = rw (lookup-insert j t meta book) (ground arith)

  erase-book_qty :
      (j t : Ticker) (book : Book F)
      → IsDict book
      → book_qty j (erase t book) ≡ (if j == t then none else book_qty j book)
  erase-book_qty j t book d = elim (Bool-cases (j == t)) [
    | inl e ↦ let same : j ≡ t = ground arith in rw (e, same, lookup-erase_self t book d) refl
    | inr e ↦ rw (e, lookup-erase_ne j t book (ground arith)) refl
  ]

module _ {F : Type 0} ⦃f : Floats F⦄ (inputs : BacktestInputs F) (day_label : Time) where
  -- A step that keeps book and simulator in step, and changes the shares of one ticker at most.
  abbrev KeepsOthers : Ticker → Backtest F → Backtest F → Type 0
  KeepsOthers t s s' =
      IsInStep s'.book s'.broker
      × ((j : Ticker) → (j == t) ≡ false → holding j s'.broker ≡ holding j s.broker)

  buy_at_open-KeepsOthers :
      (d : EntryDecision F) (px : F) (eqty : ℕ) (s : Backtest F)
      → IsInStep s.book s.broker
      → holding d.ticker s.broker ≡ none
      → IfOk (KeepsOthers d.ticker s) (buy_at_open inputs day_label d px eqty s)
  unfolding buy_at_open new_position_meta
  buy_at_open-KeepsOthers d px eqty s h new =
      let id = inputs.order_id s.broker in
      let bought = submit_buy id d.ticker eqty (some px) (end_of day_label) true s.broker in
      >>=-IfOk _ bought.0 _ λ order sent.
        >>=-IfOk _ (divide order.commission_usd (of_nat eqty)) _ λ commission _.
          let (holds, dict) =
            submit_buy-holding id d.ticker eqty (some px) (end_of day_label) true s.broker order
              h.lots_dict sent in
          (
            record {
              same_shares = λ j.
                  let meta =
                    new_position_meta d.ticker eqty
                      (price_or inputs day_label order.avg_fill_price px) d.score d.setup_type
                      commission in
                  let booked = insert-book_qty j d.ticker meta s.book in
                  let now_holds = holds j in
                  let before = h.same_shares j in
                  let none_before = lot_qty-none d.ticker s.broker new in
                  rw (booked, now_holds, before, none_before) (ground arith);
              book_dict = insert-IsDict d.ticker _ s.book h.book_dict;
              lots_dict = dict;
            },
            λ j other. let now_holds = holds j in now_holds ∙ rw other refl,
          )

  fill_entry-KeepsOthers :
      (d : EntryDecision F) (s : Backtest F)
      → IsInStep s.book s.broker
      → holding d.ticker s.broker ≡ none
      → IfOk (KeepsOthers d.ticker s) (fill_entry inputs day_label d s)
  unfolding fill_entry
  fill_entry-KeepsOthers d s h new = >>=-IfOk _ (recent_bars inputs day_label d.ticker) _ λ bar _.
      elim (Option-cases bar) [
        | inl e ↦ rw e (h, λ j other. refl)
        | inr (b, e) ↦ rw e (elim (Bool-cases (f.le b.open_price nought)) [
          | inl free ↦ rw free (h, λ j other. refl)
          | inr priced ↦ rw priced (
              >>=-IfOk _ (floor_divide d.size_usd b.open_price) _
                λ n _. buy_at_open-KeepsOthers d b.open_price (max 1 (pos_part n)) s h new)
        ])
      ]

  pub fill_entries-IsInStep :
      (ds : List (EntryDecision F)) (s : Backtest F)
      → IsInStep s.book s.broker
      → AreNew ds s.broker
      → IfOk (λ s'. IsInStep s'.book s'.broker) (fill_entries inputs day_label ds s)
  unfolding fill_entries
  fill_entries-IsInStep [] s h new = h
  fill_entries-IsInStep (d ∷ ds) s h new =
      >>=-IfOk _ (fill_entry inputs day_label d s) _ λ s' filled.
        let one = fill_entry-KeepsOthers d s h new.0 in
        let (h', others) = rw filled at one in
        fill_entries-IsInStep ds s' h'
          (AreNew-kept d.ticker ds s.broker s'.broker others new.1 new.2)

  -- What a sale takes: everything on an exit, less than everything on a halve.
  abbrev pub TakesFrom : ExitDecision F → ℕ → Type 0
  TakesFrom d n = if is_exit d.action then d.qty ≡ n else d.qty < n

  pub OrderedBy-TakesFrom :
      (meta : Position F) (d : ExitDecision F) (a : Action)
      → d.action ≡ a
      → OrderedBy meta d a
      → is_hold a ≡ false
      → TakesFrom d meta.qty
  OrderedBy-TakesFrom meta d Action.hold e ordered h = cc
  OrderedBy-TakesFrom meta d Action.halve e ordered h = rw e (omega (arith, ordered.2, ordered.3))
  OrderedBy-TakesFrom meta d Action.exit e ordered h = rw e ordered.0

  -- A step of the day that leaves the entries alone.
  abbrev pub Keeps : Backtest F → Backtest F → Type 0
  Keeps s s' = IsInStep s'.book s'.broker × (s'.pending_entries ≡ s.pending_entries)

  pub sell_on-IsInStep :
      (meta : Position F) (t : Ticker) (d : ExitDecision F) (s : Backtest F)
      → IsInStep s.book s.broker
      → book_qty t s.book ≡ some meta.qty
      → TakesFrom d meta.qty
      → IfOk (Keeps s) (sell_on inputs day_label meta t d s)
  unfolding sell_on
  sell_on-IsInStep meta t d s h has_meta takes =
      let id = inputs.order_id s.broker in
      let n = meta.qty in
      let qty = min d.qty (position_qty s.broker t) in
      let held : holding t s.broker ≡ some n = sym (h.same_shares t) ∙ has_meta in
      let all : position_qty s.broker t ≡ n = lot_qty-some t n s.broker held in
      elim (Bool-cases (qty == 0)) [
        | inl none_left ↦ rw (sell_on, none_left) (h, refl)
        | inr several ↦
            let sold =
              submit_sell id t qty (some d.fill_reference) (end_of day_label) false s.broker in
            rw (sell_on, several)
              (>>=-IfOk _ sold.0 _ λ order sent.
                >>=-IfOk _
                  (realized_pnl meta qty
                    (price_or inputs day_label order.avg_fill_price d.fill_reference)
                    order.commission_usd)
                  _
                  λ profit _.
                    let (holds, dict) =
                      submit_sell-holding id t qty n (some d.fill_reference) (end_of day_label)
                        false s.broker order h.lots_dict held sent in
                    elim (Bool-cases (is_exit d.action)) [
                      | inl e ↦
                          let whole : d.qty ≡ n = rw e at takes in
                          let gone : some_if (n - qty) ≡ none =
                            some_if_zero (n - qty) (omega (arith, whole, all)) in
                          rw e (
                            record {
                              same_shares = λ j.
                                  let left = erase-book_qty j t s.book h.book_dict in
                                  let now_holds = holds j in
                                  let before = h.same_shares j in
                                  rw (left, now_holds, before, gone) refl;
                              book_dict = erase-IsDict t s.book h.book_dict;
                              lots_dict = dict;
                            },
                            refl,
                          )
                      | inr e ↦
                          let part : d.qty < n = rw e at takes in
                          let rest : some_if (n - qty) ≡ some (n - qty) =
                            some_if_pos (n - qty) (omega (arith, part, all)) in
                          let meta' : Position F = record meta { qty = n - qty } in
                          rw e (
                            record {
                              same_shares = λ j.
                                  let left = insert-book_qty j t meta' s.book in
                                  let now_holds = holds j in
                                  let before = h.same_shares j in
                                  rw (left, now_holds, before, rest) refl;
                              book_dict = insert-IsDict t meta' s.book h.book_dict;
                              lots_dict = dict;
                            },
                            refl,
                          )
                    ])
      ]
