-- ===== src/Execution/Reconcile/Adoption.antt =====
-- What one pass of execution/reconcile.py does to the shares of each ticker.
use squeeze_hunter.Prelude.{
  ℕ, ◌≡◌, ◌⊎◌, refl, inl, inr, Bool, true, false, ◌||◌, Option, none, some, List, [], ◌∷◌, ◌++◌,
  if◌then◌else◌, ◌==◌, Bool-cases, Option-cases, arith,
}
use squeeze_hunter.Prelude.Dict.{
  Dict, lookup, insert, has, IsDict, lookup_absent, lookup_present, lookup-insert, insert-IsDict,
}
use squeeze_hunter.Prelude.Int.{pos, pos_part, ltb_ℤ}
use squeeze_hunter.Prelude.Floats.{Floats, nought}
use squeeze_hunter.Setup.{Setup}
use squeeze_hunter.Broker.{Ticker, PositionSnapshot}
use squeeze_hunter.Telemetry.{PortfolioTelemetry, clear_position}
use squeeze_hunter.Execution.Book.{Position, Book, new_position_meta}
use squeeze_hunter.Execution.Reconcile.{
  Drift, ignored, Reconciliation, holdings_from, align, adopt_at,
}

abbrev pub is_ignored : Ticker → List Drift → Bool
is_ignored t [] = false
is_ignored t (Drift.ignored s n ∷ ds) = t == s || is_ignored t ds
is_ignored t (Drift.adopted s n ∷ ds) = is_ignored t ds
is_ignored t (Drift.dropped s n ∷ ds) = is_ignored t ds
is_ignored t (Drift.requantified s m n ∷ ds) = is_ignored t ds

pub is_ignored-append :
    (t : Ticker) (ds es : List Drift)
    → is_ignored t (ds ++ es) ≡ (is_ignored t ds || is_ignored t es)
is_ignored-append t [] es = refl
is_ignored-append t (Drift.ignored s n ∷ ds) es = ground (arith, is_ignored-append t ds es)
is_ignored-append t (Drift.adopted s n ∷ ds) es = is_ignored-append t ds es
is_ignored-append t (Drift.dropped s n ∷ ds) es = is_ignored-append t ds es
is_ignored-append t (Drift.requantified s m n ∷ ds) es = is_ignored-append t ds es

abbrev pub both : Option ℕ → Option ℕ → Option ℕ
both none h = none
both (some q) h = h

-- What adopting does to a ticker's shares, for a holding or none, from what the book had before.
abbrev pub AdoptedTo : Option ℕ → Option ℕ → Option ℕ → Bool → Type 0
AdoptedTo none before after ignored_too = after ≡ before
AdoptedTo (some h) (some q) after ignored_too = after ≡ some q
AdoptedTo (some h) none after ignored_too =
    (after ≡ some h) ⊎ ((after ≡ none) × (ignored_too ≡ true))

module _ {F : Type 0} where
  abbrev pub qty_of : Option (Position F) → Option ℕ
  qty_of none = none
  qty_of (some p) = some p.qty

  abbrev pub shares_of : Option (ℕ × F) → Option ℕ
  shares_of none = none
  shares_of (some h) = some h.0

  -- The shares of a ticker in the book, and at the broker.
  abbrev pub book_qty : Ticker → Book F → Option ℕ
  book_qty t book = qty_of (lookup t book)

  abbrev pub broker_qty : Ticker → Dict (ℕ × F) → Option ℕ
  broker_qty t held = shares_of (lookup t held)

  pub align-book_qty :
      (j : Ticker) (held : Dict (ℕ × F)) (book : Book F) (t : PortfolioTelemetry F)
      → IsDict book
      → book_qty j (align true held book t).book ≡ both (book_qty j book) (broker_qty j held)
  unfolding align
  align-book_qty j held [] t d = refl
  align-book_qty j held ((ticker, meta) ∷ book) t d =
      let kept = align-book_qty j held book t d.1 in
      let dropped = align-book_qty j held book (clear_position ticker t) d.1 in
      elim (Option-cases (lookup ticker held)) [
        | inl gone ↦ rw (align, gone) (ground arith)
        | inr (h, found) ↦ rw (align, found) (ground arith)
      ]

  pub holdings_from-IsDict :
      (held : Dict (ℕ × F)) (ps : List (PositionSnapshot F))
      → IsDict held
      → IsDict (holdings_from held ps)
  holdings_from-IsDict held [] d = d
  holdings_from-IsDict held (p ∷ ps) d = elim (Bool-cases (ltb_ℤ (pos 0) p.qty)) [
    | inl long ↦ rw long (
        holdings_from-IsDict (insert p.ticker (pos_part p.qty, p.avg_cost) held) ps
          (insert-IsDict p.ticker (pos_part p.qty, p.avg_cost) held d))
    | inr short ↦ rw short (holdings_from-IsDict held ps d)
  ]

module _ {F : Type 0} ⦃f : Floats F⦄ where
  pub adopt_at-book_qty :
      (j ticker : Ticker) (qty : ℕ) (entry : F) (r : Reconciliation F)
      → has ticker r.book ≡ false
      → let r' = adopt_at ticker qty entry r in
        AdoptedTo
          (if j == ticker then some qty else none)
          (book_qty j r.book)
          (book_qty j r'.book)
          (is_ignored j r'.drift)
        × (is_ignored j r.drift ≡ true → is_ignored j r'.drift ≡ true)
  unfolding new_position_meta
  adopt_at-book_qty j ticker qty entry r fresh =
      let meta = new_position_meta ticker qty entry nought Setup.mixed nought in
      let written = lookup-insert j ticker meta r.book in
      let noted = is_ignored-append j r.drift (ignored ticker qty ∷ []) in
      let noted' = is_ignored-append j r.drift (Drift.adopted ticker qty ∷ []) in
      elim (Bool-cases (f.le entry nought)) [
        | inl low ↦ elim (Bool-cases (j == ticker)) [
          | inl e ↦
              let same : j ≡ ticker = ground arith in rw (low, e, noted) (rw same (ground arith))
          | inr e ↦ rw (low, e, noted) (ground arith)
        ]
        | inr high ↦ elim (Bool-cases (j == ticker)) [
          | inl e ↦
              let same : j ≡ ticker = ground arith in
              rw (high, e, noted') (rw (written, same) (ground arith))
          | inr e ↦ rw (high, e, noted') (ground (arith, written))
        ]
      ]

  -- A holding that the book has already is passed over.
  pub passed_over :
      (j ticker : Ticker) (h : ℕ × F) (held : Dict (ℕ × F)) (book : Book F)
      (after : Reconciliation F)
      → has ticker held ≡ false
      → has ticker book ≡ true
      → AdoptedTo
          (broker_qty j held)
          (book_qty j book)
          (book_qty j after.book)
          (is_ignored j after.drift)
      → AdoptedTo
          (broker_qty j ((ticker, h) ∷ held))
          (book_qty j book)
          (book_qty j after.book)
          (is_ignored j after.drift)
  passed_over j ticker h held book after once known rest = elim (Bool-cases (j == ticker)) [
    | inl e ↦
        let same : j ≡ ticker = ground arith in
        let no : lookup j held ≡ none = rw same (lookup_absent ticker held once) in
        let (p, found) = lookup_present ticker book known in
        let found' : lookup j book ≡ some p = rw same found in
        let kept : book_qty j after.book ≡ some p.qty = rw (no, found') at rest in
        rw (e, found') kept
    | inr e ↦ rw e rest
  ]

  -- A holding that the book has not is adopted, and the rest of the loop leaves it alone.
  pub adopted_then :
      (j ticker : Ticker) (h : ℕ × F) (held : Dict (ℕ × F)) (px : F) (r after : Reconciliation F)
      → has ticker held ≡ false
      → has ticker r.book ≡ false
      → AdoptedTo
          (broker_qty j held)
          (book_qty j (adopt_at ticker h.0 px r).book)
          (book_qty j after.book)
          (is_ignored j after.drift)
      → (is_ignored j (adopt_at ticker h.0 px r).drift ≡ true → is_ignored j after.drift ≡ true)
      → AdoptedTo
          (broker_qty j ((ticker, h) ∷ held))
          (book_qty j r.book)
          (book_qty j after.book)
          (is_ignored j after.drift)
  adopted_then j ticker h held px r after once fresh rest kept =
      let adopted = (adopt_at-book_qty j ticker h.0 px r fresh).0 in
      elim (Bool-cases (j == ticker)) [
        | inl e ↦
            let same : j ≡ ticker = ground arith in
            let no : lookup j held ≡ none = rw same (lookup_absent ticker held once) in
            let new : lookup j r.book ≡ none = rw same (lookup_absent ticker r.book fresh) in
            let left : book_qty j after.book ≡ book_qty j (adopt_at ticker h.0 px r).book =
              rw no at rest in
            let taken = rw (e, new) at adopted in
            rw (e, new, left)
              (elim taken [
                | inl bought ↦ inl bought
                | inr (unbought, noted) ↦ inr (unbought, kept noted)
              ])
        | inr e ↦
            let same : book_qty j (adopt_at ticker h.0 px r).book ≡ book_qty j r.book =
              rw e at adopted in
            rw e (rw same at rest)
      ]
