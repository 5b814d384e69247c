-- ===== src/Execution/Reconcile/Listed.antt =====
-- What a list of the broker's positions says of a ticker, beside the dict that execution/reconcile.py
-- makes of it.
use squeeze_hunter.Prelude.{
  ℕ, zero, suc, ◌≡◌, refl, inl, inr, true, false, Option, none, some, List, [], ◌∷◌, if◌then◌else◌,
  ◌==◌, map, contains, arith, Bool-cases, ap, ◌∙◌,
}
use squeeze_hunter.Prelude.Int.{ℤ, pos, negsuc, pos_part, ltb_ℤ}
use squeeze_hunter.Prelude.Dict.{Dict, insert, lookup-insert}
use squeeze_hunter.Broker.{Ticker, PositionSnapshot}
use squeeze_hunter.Execution.Reconcile.{holdings_from, at_broker}
use squeeze_hunter.Execution.Reconcile.Adoption.{broker_qty}

-- The shares of a holding; a short or flat one has none.
abbrev pub long_shares : ℤ → Option ℕ
long_shares (pos zero) = none
long_shares (pos (suc n)) = some (suc n)
long_shares (negsuc n) = none

module _ {F : Type 0} where
  -- The shares of the row of the ticker.
  abbrev pub listed_shares : Ticker → List (PositionSnapshot F) → Option ℕ
  listed_shares j [] = none
  listed_shares j (p ∷ ps) = if j == p.ticker then long_shares p.qty else listed_shares j ps

  abbrev pub tickers_of : List (PositionSnapshot F) → List Ticker
  tickers_of ps = map (λ (p : PositionSnapshot F). p.ticker) ps

  -- No ticker has two rows.
  abbrev pub AreDistinct : List (PositionSnapshot F) → Type 0
  AreDistinct [] = Unit
  AreDistinct (p ∷ ps) = (contains p.ticker (tickers_of ps) ≡ false) × AreDistinct ps

  broker_qty-insert :
      (j : Ticker) (p : PositionSnapshot F) (held : Dict (ℕ × F))
      → broker_qty j (insert p.ticker (pos_part p.qty, p.avg_cost) held)
        ≡ (if j == p.ticker then some (pos_part p.qty) else broker_qty j held)
  broker_qty-insert j p held =
      ground (arith, lookup-insert j p.ticker (pos_part p.qty, p.avg_cost) held)

  holdings_from-absent :
      (j : Ticker) (ps : List (PositionSnapshot F)) (held : Dict (ℕ × F))
      → contains j (tickers_of ps) ≡ false
      → broker_qty j (holdings_from held ps) ≡ broker_qty j held
  holdings_from-absent j [] held absent = refl
  holdings_from-absent j (p ∷ ps) held absent = elim (Bool-cases (ltb_ℤ (pos 0) p.qty)) [
    | inl long ↦
        let rest =
          holdings_from-absent j ps (insert p.ticker (pos_part p.qty, p.avg_cost) held)
            (ground arith) in
        let apart : (j == p.ticker) ≡ false = ground arith in
        rw long (rest ∙ broker_qty-insert j p held ∙ rw apart refl)
    | inr short ↦ rw short (holdings_from-absent j ps held (ground arith))
  ]

  holdings_from-listed :
      (j : Ticker) (ps : List (PositionSnapshot F)) (held : Dict (ℕ × F))
      → AreDistinct ps
      → broker_qty j held ≡ none
      → broker_qty j (holdings_from held ps) ≡ listed_shares j ps
  holdings_from-listed j [] held distinct fresh = fresh
  holdings_from-listed j (p ∷ ps) held (once, distinct) fresh =
      let held' = insert p.ticker (pos_part p.qty, p.avg_cost) held in
      let reads = broker_qty-insert j p held in
      elim (Bool-cases (j == p.ticker)) [
        | inl here ↦
            let same : j ≡ p.ticker = ground arith in
            let no_more : contains j (tickers_of ps) ≡ false =
              ap (λ i. contains i (tickers_of ps)) same ∙ once in
            elim (Bool-cases (ltb_ℤ (pos 0) p.qty)) [
              | inl long ↦
                  let all : some (pos_part p.qty) ≡ long_shares p.qty = long_all p.qty long in
                  rw (long, here) (holdings_from-absent j ps held' no_more ∙ reads ∙ rw here all)
              | inr short ↦
                  let nothing : none ≡ long_shares p.qty = long_none p.qty short in
                  rw (short, here) (holdings_from-absent j ps held no_more ∙ fresh ∙ nothing)
            ]
        | inr apart ↦ elim (Bool-cases (ltb_ℤ (pos 0) p.qty)) [
          | inl long ↦
              let fresh' : broker_qty j held' ≡ none = reads ∙ rw apart fresh in
              rw (long, apart) (holdings_from-listed j ps held' distinct fresh')
          | inr short ↦ rw (short, apart) (holdings_from-listed j ps held distinct fresh)
        ]
      ]
    where
      long_all : (q : ℤ) → ltb_ℤ (pos 0) q ≡ true → some (pos_part q) ≡ long_shares q
      long_all (pos zero) e = absurd (ground arith)
      long_all (pos (suc n)) e = refl
      long_all (negsuc n) e = absurd (ground arith)

      long_none : (q : ℤ) → ltb_ℤ (pos 0) q ≡ false → none ≡ long_shares q
      long_none (pos zero) e = refl
      long_none (pos (suc n)) e = absurd (ground arith)
      long_none (negsuc n) e = refl

  pub at_broker-listed :
      (j : Ticker) (ps : List (PositionSnapshot F))
      → AreDistinct ps
      → broker_qty j (at_broker ps) ≡ listed_shares j ps
  at_broker-listed j ps distinct = holdings_from-listed j ps [] distinct refl
