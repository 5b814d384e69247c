-- ===== src/Execution/Entries/Positions.antt =====
-- What a finished entry order of execution/entries.py does to the book.
use squeeze_hunter.Prelude.{
  ℕ, zero, suc, ◌+◌, ◌≡◌, refl, true, false, ◌||◌, Option, none, some, ok, if◌then◌else◌, ◌==◌, ◌<◌,
  arith, inl, inr, Bool-cases,
}
use squeeze_hunter.Prelude.Dict.{lookup, insert, lookup-insert}
use squeeze_hunter.Prelude.Floats.{Floats, IsOrdered, nought, of_nat, divide, pos-ne-zero}
use squeeze_hunter.Broker.{Ticker, OrderId}
use squeeze_hunter.Execution.Book.{Position, Book, new_position_meta}
use squeeze_hunter.Execution.Orders.{OrderRecord, OrderState, forget, get}
use squeeze_hunter.Execution.Orders.Tracker.{IsTracker, add-forget-get}
use squeeze_hunter.Execution.Entries.{
  EntryPath, is_filled, filled_of, entry_price_of, or_next, entry_position, finish_entry,
}

module _ {F : Type 0} where
  abbrev held : Option (Position F) → ℕ
  held none = 0
  held (some p) = p.qty

  -- The shares of a ticker that the book has.
  abbrev pub shares : Ticker → Book F → ℕ
  shares t book = held (lookup t book)

  shares-insert :
      (j t : Ticker) (meta : Position F) (n : ℕ) (book : Book F)
      → meta.qty ≡ shares t book + n
      → shares j (insert t meta book) ≡ shares j book + (if j == t then n else 0)
  shares-insert j t meta n book total = elim (Bool-cases (j == t)) [
    | inl e ↦
        let same : j ≡ t = ground arith in
        rw (lookup-insert j t meta book, e) (rw same (ground arith))
    | inr e ↦ rw (lookup-insert j t meta book, e) (ground arith)
  ]

-- The shares of an order: those reported as filled, or all of them if it is filled and none are.
abbrev pub bought : ℕ → OrderState → ℕ → ℕ
bought (suc n) state qty = suc n
bought zero OrderState.filled qty = qty
bought zero state qty = 0

bought_lem :
    (n qty : ℕ) (state : OrderState)
    → bought n state qty ≡ (if n == 0 then (if is_filled state then qty else 0) else n)
bought_lem zero qty state = ground arith
bought_lem (suc n) qty state = ground arith

module _ {F : Type 0} ⦃f : Floats F⦄ where
  -- The average price of the fills, or without one, or with zero for it, the limit.
  abbrev limit_or_zero : Option F → F
  limit_or_zero none = nought
  limit_or_zero (some limit) = if f.eq limit nought then nought else limit

  abbrev pub known_price : Option F → Option F → F
  known_price (some avg) limit = if f.eq avg nought then limit_or_zero limit else avg
  known_price none limit = limit_or_zero limit

  -- What an order adds to the book: nothing without a price above zero.
  abbrev pub gained : OrderRecord F → ℕ
  gained rec =
      if f.le (known_price rec.avg_fill_price rec.limit_price) nought
      then 0
      else bought rec.filled_qty rec.state rec.qty

  known_price_lem :
      (avg limit : Option F) → known_price avg limit ≡ or_next avg (or_next limit nought)
  known_price_lem none none = refl
  known_price_lem none (some limit) = ground arith
  known_price_lem (some avg) none = ground arith
  known_price_lem (some avg) (some limit) = ground arith

  gained_lem :
      (rec : OrderRecord F)
      → gained rec ≡ (if f.le (entry_price_of rec) nought then 0 else filled_of rec)
  gained_lem rec =
      rw
        (
          gained,
          known_price_lem rec.avg_fill_price rec.limit_price,
          bought_lem rec.filled_qty rec.qty rec.state,
        )
        refl

  gained_none :
      (rec : OrderRecord F)
      → (filled_of rec == 0 || f.le (entry_price_of rec) nought) ≡ true
      → gained rec ≡ 0
  gained_none rec h = ground (arith, gained_lem rec)

  gained_all :
      (rec : OrderRecord F)
      → (filled_of rec == 0 || f.le (entry_price_of rec) nought) ≡ false
      → gained rec ≡ filled_of rec
  gained_all rec h = ground (arith, gained_lem rec)

module _ {F : Type 0} ⦃f : Floats F⦄ (laws : IsOrdered F) where
  divide_nat : (x : F) (n : ℕ) → 0 < n → divide x (of_nat n) ≡ ok (f.quotient x (of_nat n))
  divide_nat x n h = rw (pos-ne-zero laws (of_nat n) (laws.of_nat_pos n h)) refl

  -- The position after a fill has the shares of before and those of the fill.
  entry_position-returns :
      (rec : OrderRecord F) (filled : ℕ) (px : F) (before : Option (Position F))
      → 0 < filled
      → (meta : Position F) × (entry_position rec filled px before ≡ ok meta)
        × (meta.qty ≡ held before + filled)
  unfolding new_position_meta
  entry_position-returns rec filled px none h =
      rw (divide_nat rec.commission_usd filled h) (_, refl, ground arith)
  entry_position-returns rec filled px (some p) h =
      rw
        (divide_nat (f.add (f.mul p.entry_price (of_nat p.qty)) (f.mul px (of_nat filled)))
          (p.qty + filled) (ground arith))
        (_, refl, refl)

  -- Finishing an entry order returns. It adds to the shares of the order's ticker the order's filled
  -- quantity, or if that is zero its whole quantity when its state is filled and nothing otherwise; it
  -- adds nothing when neither the average fill price nor else the limit gives a price above zero. It
  -- leaves every other ticker's shares; the order is forgotten and the other pending ones read as before, in a tracker that stays well formed.
  pub finish_entry-shares :
      (rec : OrderRecord F) (s : EntryPath F)
      → IsTracker s.pending
      → let (returned, s') = finish_entry rec s in
        (returned ≡ ok tt)
        × ((j : Ticker)
            → shares j s'.book ≡ shares j s.book + (if j == rec.ticker then gained rec else 0))
        × ((j : OrderId) → get j s'.pending ≡ (if j == rec.order_id then none else get j s.pending))
        × IsTracker s'.pending
  unfolding finish_entry
  finish_entry-shares rec s t =
      let forgets : (j : OrderId)
          → get j (forget rec.order_id s.pending)
            ≡ (if j == rec.order_id then none else get j s.pending) =
        λ j. (add-forget-get rec rec.order_id j s.pending t).1 in
      let tracks = (add-forget-get rec rec.order_id rec.order_id s.pending t).3 in
      elim (Bool-cases (filled_of rec == 0 || f.le (entry_price_of rec) nought)) [
        | inl nothing ↦
            rw (finish_entry, nothing)
              (refl, (λ j. rw (gained_none rec nothing) (ground arith)), forgets, tracks)
        | inr bought ↦
            let (meta, made, total) =
              entry_position-returns rec (filled_of rec) (entry_price_of rec)
                (lookup rec.ticker s.book) (ground arith) in
            rw (finish_entry, bought, made)
              (
                refl,
                (λ j.
                    rw (gained_all rec bought)
                      (shares-insert j rec.ticker meta (filled_of rec) s.book total)),
                forgets,
                tracks,
              )
      ]
