-- ===== src/Execution/Reconcile/Agreement.antt =====
-- After a full pass of execution/reconcile.py the book is the broker's.
use squeeze_hunter.Prelude.{
  ℕ, ◌≡◌, ◌⊎◌, refl, inl, inr, Bool, true, Option, none, some, List, [], ◌∷◌, Outcome, ok, raised,
  if◌then◌else◌, Bool-cases, Outcome-cases,
}
use squeeze_hunter.Prelude.Dict.{Dict, has, IsDict}
use squeeze_hunter.Prelude.Floats.{Floats, nought}
use squeeze_hunter.Broker.{Ticker, PositionSnapshot}
use squeeze_hunter.Telemetry.{PortfolioTelemetry}
use squeeze_hunter.Execution.Book.{Book}
use squeeze_hunter.Execution.Lifecycle.{BrokerCalls, is_transient}
use squeeze_hunter.Execution.Reconcile.{
  Reconciliation, at_broker, align, adoption_price, adopt_at, adopt_all, reconcile_book,
}
use squeeze_hunter.Execution.Reconcile.Listed.{AreDistinct, listed_shares, at_broker-listed}
use squeeze_hunter.Execution.Reconcile.Adoption.{
  is_ignored, both, AdoptedTo, book_qty, broker_qty, align-book_qty, holdings_from-IsDict,
  adopt_at-book_qty, passed_over, adopted_then,
}

-- The call returned, or raised an error that is caught.
abbrev pub Calm {ℓ} : {A : Type ℓ} → Outcome A → Type 0
Calm (ok a) = Unit
Calm (raised e) = is_transient e ≡ true

module _ {F W : Type 0} ⦃f : Floats F⦄ (b : BrokerCalls F W)
    (quotes : (t : Ticker) (w : W) → Calm (b.fetch_quote t w).0) where
  adoption_price-returns :
      (t : Ticker) (cost : F) (w : W) → (px : F) × ((adoption_price b t cost w).0 ≡ ok px)
  unfolding adoption_price
  adoption_price-returns t cost w =
      let calm = quotes t w in
      elim (Bool-cases (f.le (if f.lt nought cost then cost else nought) nought)) [
        | inr priced ↦ rw (adoption_price, priced) (_, refl)
        | inl free ↦ elim (Outcome-cases (b.fetch_quote t w).0) [
          | inl (q, e) ↦ rw (adoption_price, free, e) (_, refl)
          | inr (x, e) ↦
              let caught : is_transient x ≡ true = rw e at calm in
              rw (adoption_price, free, e, caught) (nought, refl)
        ]
      ]

  Settled : Dict (ℕ × F) → Reconciliation F → Outcome (Unit {0}) × Reconciliation F × W → Type 0
  Settled held r o =
      (o.0 ≡ ok tt)
      × ((j : Ticker)
          → AdoptedTo (broker_qty j held) (book_qty j r.book) (book_qty j o.1.book)
              (is_ignored j o.1.drift))
      × ((j : Ticker) → is_ignored j r.drift ≡ true → is_ignored j o.1.drift ≡ true)

  adopt_all-Settled :
      (held : Dict (ℕ × F)) (r : Reconciliation F) (w : W)
      → IsDict held
      → Settled held r (adopt_all b [] held r w)
  unfolding adopt_all Settled
  adopt_all-Settled [] r w d = (refl, (λ j. refl), λ j h. h)
  adopt_all-Settled ((ticker, h) ∷ held) r w d = elim (Bool-cases (has ticker r.book)) [
    | inl known ↦
        let (done, rest, kept) = adopt_all-Settled held r w d.1 in
        rw (adopt_all, known)
          (
            done,
            (λ j.
                passed_over j ticker h held r.book (adopt_all b [] held r w).1 d.0 known (rest j)),
            kept,
          )
    | inr fresh ↦
        let (px, priced) = adoption_price-returns ticker h.1 w in
        let w' = (adoption_price b ticker h.1 w).1 in
        let (done, rest, kept) = adopt_all-Settled held (adopt_at ticker h.0 px r) w' d.1 in
        rw (adopt_all, fresh, priced)
          (
            done,
            (λ j.
                adopted_then j ticker h held px r
                  (adopt_all b [] held (adopt_at ticker h.0 px r) w').1 d.0 fresh (rest j)
                  (kept j)),
            λ j h'. kept j ((adopt_at-book_qty j ticker h.0 px r fresh).1 h'),
          )
  ]

  -- From what the alignment left to what adopting made of it.
  agreed :
      (before held after : Option ℕ) (noted : Bool)
      → AdoptedTo held (both before held) after noted
      → (after ≡ held) ⊎ ((after ≡ none) × (noted ≡ true))
  agreed none none after noted h = inl h
  agreed none (some q) after noted h = h
  agreed (some p) none after noted h = inl h
  agreed (some p) (some q) after noted h = inl h

  -- When the broker lists its positions, and every quote that is asked for comes or fails with an
  -- error that is caught, a full pass with nothing to skip returns. If no ticker has two rows in that
  -- list, the book then has of every ticker the shares that its row says, and none where the row is
  -- short or flat or there is no row, except that the book has none of the tickers that the drift list
  -- names as ignored for want of a price.
  pub reconcile_book-agreed :
      (book : Book F) (t : PortfolioTelemetry F) (w : W) (snapshots : List (PositionSnapshot F))
      → IsDict book
      → AreDistinct snapshots
      → (b.get_positions w).0 ≡ ok snapshots
      → let (returned, r, w') = reconcile_book b true [] book t w in
        (returned ≡ ok tt)
        × ((j : Ticker)
            → (book_qty j r.book ≡ listed_shares j snapshots)
              ⊎ ((book_qty j r.book ≡ none) × (is_ignored j r.drift ≡ true)))
  unfolding reconcile_book Settled
  reconcile_book-agreed book t w snapshots d distinct listed =
      let held = at_broker snapshots in
      let r = align true held book t in
      let w' = (b.get_positions w).1 in
      let (done, each, kept) = adopt_all-Settled held r w' (holdings_from-IsDict [] snapshots tt) in
      rw (reconcile_book, listed)
        (
          done,
          λ j.
              let after = each j in
              let from = rw (align-book_qty j held book t d) at after in
              let there = at_broker-listed j snapshots distinct in
              let told = agreed (book_qty j book) (broker_qty j held) _ _ from in rw there at told,
        )
