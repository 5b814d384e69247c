-- ===== src/Broker/Ibkr/Holdings.antt =====
-- The two readings of the positions in broker/ibkr.py.
use squeeze_hunter.Prelude.{
  ◌≡◌, refl, sym, inl, inr, true, false, not, ◌||◌, Option, none, some, List, [], ◌∷◌, Outcome, ok,
  raised, arith, if◌then◌else◌, ◌==◌, get_or, Bool-cases, Outcome-cases, ap, ◌∙◌,
}
use squeeze_hunter.Prelude.Int.{ℤ, pos, negsuc, add, ltb_ℤ}
use squeeze_hunter.Prelude.Dict.{Dict, lookup, has, IsDict, lookup-insert, insert-IsDict}
use squeeze_hunter.Prelude.Floats.{Floats, nought}
use squeeze_hunter.Broker.{Ticker, PositionSnapshot}
use squeeze_hunter.Broker.Ibkr.{
  Account, PositionRow, IbkrBroker, Client, is_zero, is_symbol, other_account, add_row, blended,
  aggregate, sum_rows, long_only,
}
use squeeze_hunter.Broker.Ibkr.Session.{get_positions, get_position_qty}

add_zero : (a q : ℤ) → is_zero q ≡ true → add a q ≡ a
unfolding add
add_zero (pos a) (pos q) e = ground arith
add_zero (negsuc a) (pos q) e = ground arith
add_zero a (negsuc q) e = absurd (ground arith)

abbrev pub if_long : ℤ → Option ℤ
if_long q = if ltb_ℤ (pos 0) q then some q else none

module _ {F : Type 0} ⦃f : Floats F⦄ where
  abbrev qty_at : Ticker → Dict (ℤ × F) → ℤ
  qty_at t agg = (get_or (lookup t agg) (pos 0, nought)).0

  -- The quantity that a list of snapshots gives a ticker.
  abbrev pub listed_qty : Ticker → List (PositionSnapshot F) → Option ℤ
  listed_qty t [] = none
  listed_qty t (p ∷ ps) = if t == p.ticker then some p.qty else listed_qty t ps

  abbrev qty_after : Option Account → Ticker → PositionRow F → Option Ticker → ℤ → ℤ
  qty_after account t row symbol total =
      if not (is_symbol t symbol) || other_account account row.account
      then total
      else add total row.position

  add_row-qty :
      (account : Option Account) (t : Ticker) (row : PositionRow F) (symbol : Option Ticker)
      (agg : Dict (ℤ × F))
      → qty_at t (add_row account row symbol agg) ≡ qty_after account t row symbol (qty_at t agg)
  add_row-qty account t row none agg = refl
  add_row-qty account t row (some x) agg = elim (Bool-cases (other_account account row.account)) [
    | inl other ↦ elim (Bool-cases (x == t)) [
      | inl here ↦ rw (other, here) refl
      | inr apart ↦ rw (other, apart) refl
    ]
    | inr own ↦ elim (Bool-cases (is_zero row.position)) [
      | inl flat ↦ elim (Bool-cases (x == t)) [
        | inl here ↦ rw (own, flat, here) (sym (add_zero (qty_at t agg) row.position flat))
        | inr apart ↦ rw (own, flat, apart) refl
      ]
      | inr held ↦
          let value = blended (get_or (lookup x agg) (pos 0, nought)) row.position row.avg_cost in
          let reads = lookup-insert t x value agg in
          elim (Bool-cases (x == t)) [
            | inl here ↦
                let same : x ≡ t = ground arith in
                let turned : (t == x) ≡ true = ground arith in
                rw (own, held, here, qty_at, reads, turned)
                  (ap (λ y. add (qty_at y agg) row.position) same)
            | inr apart ↦
                let turned : (t == x) ≡ false = ground arith in
                rw (own, held, apart, qty_at, reads, turned) refl
          ]
    ]
  ]

  add_row-IsDict :
      (account : Option Account) (row : PositionRow F) (symbol : Option Ticker) (agg : Dict (ℤ × F))
      → IsDict agg
      → IsDict (add_row account row symbol agg)
  add_row-IsDict account row none agg h = h
  add_row-IsDict account row (some x) agg h =
      elim (Bool-cases (other_account account row.account || is_zero row.position)) [
        | inl skipped ↦ rw skipped h
        | inr added ↦ rw added (insert-IsDict x _ agg h)
      ]

  aggregate-qty :
      (account : Option Account) (t : Ticker) (rows : List (PositionRow F)) (agg : Dict (ℤ × F))
      → IsDict agg
      → IsDict (aggregate account agg rows)
        × (qty_at t (aggregate account agg rows) ≡ sum_rows account t (qty_at t agg) rows)
  unfolding aggregate sum_rows
  aggregate-qty account t [] agg h = (h, refl)
  aggregate-qty account t (row ∷ rows) agg h =
      let agg' = add_row account row row.symbol agg in
      let (dict, rest) =
        aggregate-qty account t rows agg' (add_row-IsDict account row row.symbol agg h) in
      (
        dict,
        rest
            ∙ ap (λ total. sum_rows account t total rows)
                (add_row-qty account t row row.symbol agg),
      )

  long_only-absent :
      (t : Ticker) (agg : Dict (ℤ × F)) → has t agg ≡ false → listed_qty t (long_only agg) ≡ none
  unfolding long_only
  long_only-absent t [] e = refl
  long_only-absent t ((x, (q, c)) ∷ agg) e = elim (Bool-cases (ltb_ℤ (pos 0) q)) [
    | inl long ↦
        let rest = long_only-absent t agg (ground arith) in
        let apart : (t == x) ≡ false = ground arith in rw (long_only, long, apart) rest
    | inr short ↦ rw (long_only, short) (long_only-absent t agg (ground arith))
  ]

  long_only-qty :
      (t : Ticker) (agg : Dict (ℤ × F))
      → IsDict agg
      → listed_qty t (long_only agg) ≡ if_long (qty_at t agg)
  unfolding long_only
  long_only-qty t [] h = refl
  long_only-qty t ((x, (q, c)) ∷ agg) (absent, h) = elim (Bool-cases (t == x)) [
    | inl here ↦
        let same : x ≡ t = ground arith in
        let found : qty_at t ((x, (q, c)) ∷ agg) ≡ q = rw (qty_at, here) refl in
        elim (Bool-cases (ltb_ℤ (pos 0) q)) [
          | inl long ↦ rw (long_only, long, here, found, long) refl
          | inr short ↦
              rw (long_only, short, found, short)
                (long_only-absent t agg (ap (λ y. has y agg) (sym same) ∙ absent))
        ]
    | inr apart ↦
        let passed : qty_at t ((x, (q, c)) ∷ agg) ≡ qty_at t agg = rw (qty_at, apart) refl in
        elim (Bool-cases (ltb_ℤ (pos 0) q)) [
          | inl long ↦ rw (long_only, long, apart, passed) (long_only-qty t agg h)
          | inr short ↦ rw (long_only, short, passed) (long_only-qty t agg h)
        ]
  ]

  -- The list has the ticker with the quantity that is read for it, or not at all if that is not positive.
  abbrev pub Agree : Ticker → Outcome (List (PositionSnapshot F)) → Outcome ℤ → Type 0
  Agree t (raised e) q = q ≡ raised e
  Agree t (ok ps) q = (n : ℤ) × (q ≡ ok n) × (listed_qty t ps ≡ if_long n)

module _ {F W : Type 0} ⦃f : Floats F⦄ (c : Client F W) where
  -- From one state of the client, the list of the positions and the quantity of one ticker agree: the
  -- list has the ticker with that quantity if it is positive, and not at all if it is not. Either both
  -- calls raise, and the same, or neither does, and they leave the client in the same state.
  pub get_positions-get_position_qty :
      (t : Ticker) (s : IbkrBroker F) (w : W)
      → let (ps, w') = get_positions c s w in
        let (q, w'') = get_position_qty c t s w in Agree t ps q × (w' ≡ w'')
  unfolding get_positions get_position_qty
  get_positions-get_position_qty t s w =
      let fresh = c.req_positions w in
      let rows = c.positions fresh.1 in
      elim (Outcome-cases fresh.0) [
        | inr (x, e) ↦ rw (get_positions, get_position_qty, e) (refl, refl)
        | inl (done, e) ↦
            let (dict, summed) = aggregate-qty s.account t rows [] tt in
            rw (get_positions, get_position_qty, e)
              (
                (
                  sum_rows s.account t (pos 0) rows,
                  refl,
                  long_only-qty t (aggregate s.account [] rows) dict ∙ ap if_long summed,
                ),
                refl,
              )
      ]
