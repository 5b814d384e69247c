-- ===== src/Telemetry/Marks.antt =====
-- The marks of telemetry.py through the passes of execution/entries.py and execution/reconcile.py. A
-- mark with the entry price itself shows no gap.
use squeeze_hunter.Prelude.{
  ◌≡◌, ◌≢◌, ◌⊎◌, ◌∙◌, refl, ap, inl, inr, Bool, true, false, Option, none, some, ◌==◌, arith,
  Bool-cases,
}
use squeeze_hunter.Prelude.Dict.{
  lookup, IsDict, lookup-insert, lookup-erase_ne, lookup-erase_self, insert-IsDict, erase-IsDict,
}
use squeeze_hunter.Broker.{Ticker}
use squeeze_hunter.Telemetry.{PortfolioTelemetry, clear_position, record_position}

module _ {F : Type 0} where
  abbrev pub Flat : Option (F × F) → Type 0
  Flat none = Unit
  Flat (some (entry, mark)) = entry ≡ mark

  -- A ticker outside the set has no mark that shows a gap.
  abbrev pub Covers : (Ticker → Bool) → PortfolioTelemetry F → Type 0
  Covers set t =
      IsDict t.position_marks × ((j : Ticker) → (set j ≡ true) ⊎ Flat (lookup j t.position_marks))

  pub record_position-flat :
      (set : Ticker → Bool) (ticker : Ticker) (price : F) (t : PortfolioTelemetry F)
      → Covers set t
      → Covers set (record_position ticker price price t)
  unfolding record_position
  record_position-flat set ticker price t (dict, covers) = (
    insert-IsDict ticker (price, price) t.position_marks dict,
    λ j.
        let reads = lookup-insert j ticker (price, price) t.position_marks in
        elim (Bool-cases (j == ticker)) [
          | inl here ↦ inr (rw (reads, here) refl)
          | inr other ↦ rw (reads, other) (covers j)
        ],
  )

  -- A mark of a member of the set may show a gap.
  pub record_position-member :
      (set : Ticker → Bool) (ticker : Ticker) (entry price : F) (t : PortfolioTelemetry F)
      → set ticker ≡ true
      → Covers set t
      → Covers set (record_position ticker entry price t)
  unfolding record_position
  record_position-member set ticker entry price t member (dict, covers) = (
    insert-IsDict ticker (entry, price) t.position_marks dict,
    λ j.
        let reads = lookup-insert j ticker (entry, price) t.position_marks in
        elim (Bool-cases (j == ticker)) [
          | inl here ↦ let same : j ≡ ticker = ground arith in inl (ap set same ∙ member)
          | inr other ↦ rw (reads, other) (covers j)
        ],
  )

  -- Without its mark a ticker may leave the set.
  pub clear_position-Covers :
      (set fewer : Ticker → Bool) (ticker : Ticker) (t : PortfolioTelemetry F)
      → ((j : Ticker) → (j == ticker) ≡ false → set j ≡ true → fewer j ≡ true)
      → Covers set t
      → Covers fewer (clear_position ticker t)
  unfolding clear_position
  clear_position-Covers set fewer ticker t kept (dict, covers) = (
    erase-IsDict ticker t.position_marks dict,
    λ j. elim (Bool-cases (j == ticker)) [
      | inl here ↦
          let same : j ≡ ticker = ground arith in
          inr (rw (same, lookup-erase_self ticker t.position_marks dict) tt)
      | inr other ↦
          let apart : j ≢ ticker = ground arith in
          rw (lookup-erase_ne j ticker t.position_marks apart)
            (elim (covers j) [ inl member ↦ inl (kept j other member) | inr flat ↦ inr flat ])
    ],
  )

  pub Covers-mono :
      (set more : Ticker → Bool) (t : PortfolioTelemetry F)
      → ((j : Ticker) → set j ≡ true → more j ≡ true)
      → Covers set t
      → Covers more t
  Covers-mono set more t grows (dict, covers) =
      (dict, λ j. elim (covers j) [ inl member ↦ inl (grows j member) | inr flat ↦ inr flat ])
