-- ===== src/Execution/Reconcile/Marks.antt =====
-- After a pass of execution/reconcile.py no ticker outside the book has a mark that shows a gap.
use squeeze_hunter.Prelude.{
  ℕ, ◌≡◌, inl, inr, Bool, true, false, ◌||◌, ◌&&◌, not, List, [], ◌∷◌, ◌==◌, contains, arith,
  Bool-cases, Option-cases, Outcome-cases,
}
use squeeze_hunter.Prelude.Dict.{Dict, lookup, has, insert, lookup-insert}
use squeeze_hunter.Prelude.Floats.{Floats, nought}
use squeeze_hunter.Broker.{Ticker}
use squeeze_hunter.Telemetry.{PortfolioTelemetry, clear_position, record_position}
use squeeze_hunter.Telemetry.Marks.{
  Covers, Covers-mono, record_position-flat, clear_position-Covers,
}
use squeeze_hunter.Execution.Book.{Position, Book}
use squeeze_hunter.Execution.Lifecycle.{BrokerCalls}
use squeeze_hunter.Execution.Reconcile.{
  Reconciliation, is_pending, at_broker, align, adoption_price, adopt_at, adopt_all, reconcile_book,
}

abbrev and_one : (Ticker → Bool) → Ticker → Ticker → Bool
and_one others ticker j = others j || (j == ticker)

module _ {F : Type 0} where
  -- The tickers of a book, and some others.
  abbrev among : (Ticker → Bool) → Book F → Ticker → Bool
  among others book j = others j || has j book

  head_out :
      (others : Ticker → Bool) (ticker : Ticker) (meta : Position F) (book : Book F) (j : Ticker)
      → among others ((ticker, meta) ∷ book) j ≡ true
      → among (and_one others ticker) book j ≡ true
  head_out others ticker meta book j h = ground arith

  head_in :
      (others : Ticker → Bool) (ticker : Ticker) (meta : Position F) (book : Book F) (j : Ticker)
      → among (and_one others ticker) book j ≡ true
      → among others ((ticker, meta) ∷ book) j ≡ true
  head_in others ticker meta book j h = ground arith

  abbrev Aligned : (Ticker → Bool) → Reconciliation F → Type 0
  Aligned others r = Covers (among others r.book) r.telemetry

  align-Covers :
      (full : Bool) (held : Dict (ℕ × F)) (book : Book F) (t : PortfolioTelemetry F)
      (others : Ticker → Bool)
      → Covers (among others book) t
      → Aligned others (align full held book t)
  unfolding align
  align-Covers full held [] t others h = h
  align-Covers full held ((ticker, meta) ∷ book) t others h =
      let rest = align full held book t in
      let kept =
        align-Covers full held book t (and_one others ticker)
          (Covers-mono _ _ t (head_out others ticker meta book) h) in
      let back : (meta' : Position F)
          → Covers (among others ((ticker, meta') ∷ rest.book)) rest.telemetry =
        λ meta'. Covers-mono _ _ rest.telemetry (head_in others ticker meta' rest.book) kept in
      elim (Bool-cases (not full && is_pending meta.pending_exits)) [
        | inl waits ↦ rw (align, waits) (back meta)
        | inr looked_at ↦ elim (Option-cases (lookup ticker held)) [
          | inl gone ↦
              rw (align, looked_at, gone)
                (align-Covers full held book (clear_position ticker t) others (
                  clear_position-Covers (among others ((ticker, meta) ∷ book)) (among others book)
                    ticker t (λ j other member. ground arith) h))
          | inr (q, there) ↦ elim (Bool-cases (q.0 == meta.qty)) [
            | inl same ↦ rw (align, looked_at, there, same) (back meta)
            | inr changed ↦ rw (align, looked_at, there, changed) (back (record meta { qty = q.0 }))
          ]
        ]
      ]

module _ {F : Type 0} where
  -- The tickers of a book.
  abbrev pub held_in : Book F → Ticker → Bool
  held_in book j = has j book

  insert-held :
      (j ticker : Ticker) (meta : Position F) (book : Book F)
      → held_in book j ≡ true
      → held_in (insert ticker meta book) j ≡ true
  insert-held j ticker meta book member = ground (arith, lookup-insert j ticker meta book)

  abbrev Adopted : Reconciliation F → Type 0
  Adopted r = Covers (held_in r.book) r.telemetry

  align-Adopted :
      (full : Bool) (held : Dict (ℕ × F)) (book : Book F) (t : PortfolioTelemetry F)
      → Covers (held_in book) t
      → Adopted (align full held book t)
  align-Adopted full held book t h = align-Covers full held book t (λ j. false) h

module _ {F : Type 0} ⦃f : Floats F⦄ where
  adopt_at-Adopted :
      (ticker : Ticker) (qty : ℕ) (entry : F) (r : Reconciliation F)
      → Adopted r
      → Adopted (adopt_at ticker qty entry r)
  adopt_at-Adopted ticker qty entry r h = elim (Bool-cases (f.le entry nought)) [
    | inl c ↦ rw (adopt_at, c) h
    | inr c ↦
        rw (adopt_at, c)
          (Covers-mono (held_in r.book) _ (record_position ticker entry entry r.telemetry)
            (λ j. insert-held j ticker _ r.book)
            (record_position-flat (held_in r.book) ticker entry r.telemetry h))
  ]

module _ {F W : Type 0} ⦃f : Floats F⦄ (b : BrokerCalls F W) where
  adopt_all-Adopted :
      (skip : List Ticker) (held : Dict (ℕ × F)) (r : Reconciliation F) (w : W)
      → Adopted r
      → Adopted (adopt_all b skip held r w).1
  unfolding adopt_all
  adopt_all-Adopted skip [] r w h = h
  adopt_all-Adopted skip ((t, q) ∷ rest) r w h =
      elim (Bool-cases (has t r.book || contains t skip)) [
        | inl known ↦ rw (adopt_all, known) (adopt_all-Adopted skip rest r w h)
        | inr new ↦
            let priced = adoption_price b t q.1 w in
            elim (Outcome-cases priced.0) [
              | inr (x, e) ↦ rw (adopt_all, new, e) h
              | inl (px, e) ↦
                  rw (adopt_all, new, e)
                    (adopt_all-Adopted skip rest (adopt_at t q.0 px r) priced.1
                      (adopt_at-Adopted t q.0 px r h))
            ]
      ]

  pub reconcile_book-Covers :
      (full : Bool) (skip : List Ticker) (book : Book F) (t : PortfolioTelemetry F) (w : W)
      → Covers (held_in book) t
      → let r = (reconcile_book b full skip book t w).1 in Covers (held_in r.book) r.telemetry
  unfolding reconcile_book
  reconcile_book-Covers full skip book t w h =
      let listed = b.get_positions w in
      elim (Outcome-cases listed.0) [
        | inr (x, e) ↦ rw (reconcile_book, e) h
        | inl (snapshots, e) ↦
            let held = at_broker snapshots in
            rw (reconcile_book, e)
              (adopt_all-Adopted skip held (align full held book t) listed.1
                (align-Adopted full held book t h))
      ]
