-- ===== src/Execution/Reconcile.antt =====
-- execution/reconcile.py: the local book made to agree with the broker.
pub mod Adoption
pub mod Listed
pub mod Agreement
pub mod Marks
use squeeze_hunter.Prelude.{
  ℕ, Bool, true, false, not, ◌&&◌, ◌||◌, Option, none, some, List, [], ◌∷◌, ◌++◌, Outcome, ok,
  raised, if◌then◌else◌, ◌==◌, contains,
}
use squeeze_hunter.Prelude.Int.{ℤ, pos, pos_part, ltb_ℤ}
use squeeze_hunter.Prelude.Dict.{Dict, lookup, insert, has}
use squeeze_hunter.Prelude.Floats.{Floats, nought, or_else}
use squeeze_hunter.Setup.{Setup}
use squeeze_hunter.Broker.{Ticker, OrderId, Quote, PositionSnapshot}
use squeeze_hunter.Telemetry.{PortfolioTelemetry, clear_position, record_position}
use squeeze_hunter.Execution.Book.{Position, Book, new_position_meta}
use squeeze_hunter.Execution.Lifecycle.{BrokerCalls, is_transient}

-- The texts of the drift list, with their numbers.
pub data Drift : Type 0 where
  dropped : Ticker → ℕ → Drift
  requantified : Ticker → ℕ → ℕ → Drift
  ignored adopted : Ticker → ℕ → Drift

-- What the pass changes.
pub record Reconciliation (F : Type 0) : Type 0 where
  pub book : Book F
  pub telemetry : PortfolioTelemetry F
  pub drift : List Drift

abbrev pub is_pending : List OrderId → Bool
is_pending [] = false
is_pending (id ∷ ids) = true

module _ {F : Type 0} where
  -- `{p.ticker: p for p in snapshots if p.qty > 0}`, the quantity as a number of shares.
  abbrev pub holdings_from : Dict (ℕ × F) → List (PositionSnapshot F) → Dict (ℕ × F)
  holdings_from held [] = held
  holdings_from held (p ∷ ps) =
      holdings_from
        (if ltb_ℤ (pos 0) p.qty then insert p.ticker (pos_part p.qty, p.avg_cost) held else held) ps

  abbrev pub at_broker : List (PositionSnapshot F) → Dict (ℕ × F)
  at_broker snapshots = holdings_from [] snapshots

  -- The loop over the local positions. Each pass changes or drops its own ticker only.
  unfoldable pub align : Bool → Dict (ℕ × F) → Book F → PortfolioTelemetry F → Reconciliation F
  align full held [] t = record { book = []; telemetry = t; drift = [] }
  align full held ((ticker, meta) ∷ book) t =
      if not full && is_pending meta.pending_exits
      then (let r = align full held book t in record r { book = (ticker, meta) ∷ r.book })
      else elim (lookup ticker held) [
        | none ↦
            let r = align full held book (clear_position ticker t) in
            record r { drift = dropped ticker meta.qty ∷ r.drift }
        | some h ↦
            let r = align full held book t in
            if h.0 == meta.qty then record r { book = (ticker, meta) ∷ r.book } else record r {
              book = (ticker, record meta { qty = h.0 }) ∷ r.book;
              drift = requantified ticker meta.qty h.0 ∷ r.drift;
            }
      ]

module _ {F : Type 0} ⦃f : Floats F⦄ where
  abbrev price_of : Quote F → F
  price_of q = or_else q.last (or_else q.bid (or_else q.ask nought))

  abbrev pub adopt_at : Ticker → ℕ → F → Reconciliation F → Reconciliation F
  adopt_at ticker qty entry r =
      if f.le entry nought
      then record r { drift = r.drift ++ ignored ticker qty ∷ [] }
      else record {
        book = insert ticker (new_position_meta ticker qty entry nought Setup.mixed nought) r.book;
        telemetry = record_position ticker entry entry r.telemetry;
        drift = r.drift ++ adopted ticker qty ∷ [];
      }

module _ {F W : Type 0} ⦃f : Floats F⦄ (b : BrokerCalls F W) where
  -- The price to adopt a holding at: its cost, or else a quote.
  unfoldable pub adoption_price : Ticker → F → W → Outcome F × W
  adoption_price ticker avg_cost w =
      let entry = if f.lt nought avg_cost then avg_cost else nought in
      if not (f.le entry nought)
      then (ok entry, w)
      else (let (r, w') = b.fetch_quote ticker w in
          elim r [
            | ok q ↦ (ok (price_of q), w')
            | raised e ↦ if is_transient e then (ok nought, w') else (raised e, w')
          ])

  -- The loop over the broker's holdings. What was changed stays changed if a quote raises.
  unfoldable pub adopt_all :
      List Ticker → Dict (ℕ × F) → Reconciliation F → W → Outcome (Unit {0}) × Reconciliation F × W
  adopt_all skip [] r w = (ok tt, r, w)
  adopt_all skip ((ticker, held) ∷ rest) r w =
      if has ticker r.book || contains ticker skip
      then adopt_all skip rest r w
      else (let (entry, w') = adoption_price ticker held.1 w in
          elim entry [
            | raised e ↦ (raised e, r, w')
            | ok px ↦ adopt_all skip rest (adopt_at ticker held.0 px r) w'
          ])

  unfoldable pub reconcile_book :
      Bool
      → List Ticker
      → Book F
      → PortfolioTelemetry F
      → W
      → Outcome (Unit {0}) × Reconciliation F × W
  reconcile_book full skip book t w =
      let (r, w') = b.get_positions w in
      elim r [
        | raised e ↦ (raised e, record { book = book; telemetry = t; drift = [] }, w')
        | ok snapshots ↦
            let held = at_broker snapshots in adopt_all skip held (align full held book t) w'
      ]
