-- ===== src/Data/Replay/Window.antt =====
-- What the replay of data/providers/backtest.py shows of the cached bars.
use squeeze_hunter.Prelude.{
  ℕ, ◌≡◌, ◌≤◌, ◌<◌, refl, zero, suc, inl, inr, min, Bool, true, false, ◌&&◌, Option, none, some,
  List, [], ◌∷◌, ok, ◌>>=◌, sym, ap, leb, drop, take, keep, map, arith, >>=-eq-ok, Bool-cases,
  Option-cases,
}
use squeeze_hunter.Prelude.Floats.{Floats}
use squeeze_hunter.Broker.{Ticker, Time}
use squeeze_hunter.Data.{Bar, ohlc_consistent}
use squeeze_hunter.Data.Replay.{
  bisect_left, bisect_right, stamp_le, BarRow, Cache, sort_rows, place_row, stamp_of, bar_of,
  bars_of, bars_prepared, fetch_bars,
}

stamp_le_trans :
    (a b c : Option Time) → stamp_le a b ≡ true → stamp_le b c ≡ true → stamp_le a c ≡ true
stamp_le_trans a b none h k = refl
stamp_le_trans a none (some z) h k = cc
stamp_le_trans none (some y) (some z) h k = cc
stamp_le_trans (some x) (some y) (some z) h k = ground arith

stamp_le_total : (a b : Option Time) → stamp_le a b ≡ false → stamp_le b a ≡ true
stamp_le_total a none h = cc
stamp_le_total none (some y) h = refl
stamp_le_total (some x) (some y) h = ground arith

stamp_le_zero : (s : Option Time) → stamp_le (some 0) s ≡ true
stamp_le_zero none = refl
stamp_le_zero (some t) = ground arith

module _ {F : Type 0} where
  -- In order, and not before `lo`.
  abbrev pub IsAscending : Time → List (Bar F) → Type 0
  IsAscending lo [] = Unit
  IsAscending lo (b ∷ bs) = (lo ≤ b.ts) × IsAscending b.ts bs

  abbrev AreAscending : Option Time → List (BarRow F) → Type 0
  AreAscending lo [] = Unit
  AreAscending lo (r ∷ rs) = (stamp_le lo r.ts ≡ true) × AreAscending r.ts rs

  AreAscending-mono :
      (lo mid : Option Time) (rs : List (BarRow F))
      → stamp_le lo mid ≡ true
      → AreAscending mid rs
      → AreAscending lo rs
  AreAscending-mono lo mid [] h d = tt
  AreAscending-mono lo mid (r ∷ rs) h d = (stamp_le_trans lo mid r.ts h d.0, d.1)

  place_row-AreAscending :
      (lo : Option Time) (r : BarRow F) (rs : List (BarRow F))
      → stamp_le lo r.ts ≡ true
      → AreAscending lo rs
      → AreAscending lo (place_row r rs)
  place_row-AreAscending lo r [] h d = (h, tt)
  place_row-AreAscending lo r (x ∷ xs) h d = elim (Bool-cases (stamp_le r.ts x.ts)) [
    | inl e ↦ rw e (h, (e, d.1))
    | inr e ↦ rw e (d.0, place_row-AreAscending x.ts r xs (stamp_le_total r.ts x.ts e) d.1)
  ]

  sort_rows-AreAscending : (rs : List (BarRow F)) → AreAscending (some 0) (sort_rows rs)
  sort_rows-AreAscending [] = tt
  sort_rows-AreAscending (r ∷ rs) =
      place_row-AreAscending (some 0) r (sort_rows rs) (stamp_le_zero r.ts)
        (sort_rows-AreAscending rs)

  abbrev pub is_within : Time → Time → Bar F → Bool
  is_within start hi b = leb start b.ts && leb b.ts hi

  keep_past :
      (start hi lo : Time) (bs : List (Bar F))
      → hi < lo
      → IsAscending lo bs
      → keep (is_within start hi) bs ≡ []
  keep_past start hi lo [] h d = refl
  keep_past start hi lo (b ∷ bs) h d = ground (arith, keep_past start hi b.ts bs)

  take-keep :
      (start hi lo : Time) (bs : List (Bar F))
      → start ≤ lo
      → IsAscending lo bs
      → take (bisect_right (map stamp_of bs) hi) bs ≡ keep (is_within start hi) bs
  take-keep start hi lo [] h d = refl
  take-keep start hi lo (b ∷ bs) h d =
      ground (arith, take-keep start hi b.ts bs, keep_past start hi b.ts bs)

  drop_none : (n : ℕ) → drop {A = Bar F} n [] ≡ []
  drop_none zero = refl
  drop_none (suc n) = refl

  IsAscending-cons :
      (lo t : Time) (b : Bar F) (bs all : List (Bar F))
      → lo ≤ t
      → b.ts ≡ t
      → IsAscending t bs
      → b ∷ bs ≡ all
      → IsAscending lo all
  IsAscending-cons lo t b bs all h e d whole = rw (sym whole) (rw e (h, d))

  drop-take-keep :
      (start hi lo : Time) (bs : List (Bar F))
      → IsAscending lo bs
      → drop (bisect_left (map stamp_of bs) start) (take (bisect_right (map stamp_of bs) hi) bs)
        ≡ keep (is_within start hi) bs
  drop-take-keep start hi lo [] d = refl
  drop-take-keep start hi lo (b ∷ bs) d = ground (
    arith,
    drop-take-keep start hi b.ts bs,
    take-keep start hi b.ts bs,
    keep_past start hi b.ts bs,
    drop_none (bisect_left (map stamp_of (b ∷ bs)) start),
  )

module _ {F : Type 0} ⦃f : Floats F⦄ where
  bar_of-ts : (r : BarRow F) (t : Time) (b : Bar F) → bar_of r t ≡ ok b → b.ts ≡ t
  unfolding ohlc_consistent
  bar_of-ts r t b made = ground arith

  bars_of-IsAscending :
      (lo : Time) (rs : List (BarRow F)) (bs : List (Bar F))
      → AreAscending (some lo) rs
      → bars_of rs ≡ ok bs
      → IsAscending lo bs
  unfolding bars_of
  bars_of-IsAscending lo [] bs d made = let same : bs ≡ [] = cc in rw same tt
  bars_of-IsAscending lo (r ∷ rs) bs d made = elim (Option-cases r.ts) [
    | inl e ↦
        let rest : bars_of rs ≡ ok bs = rw e at made in
        bars_of-IsAscending lo rs bs (AreAscending-mono (some lo) r.ts rs d.0 d.1) rest
    | inr (t, e) ↦
        let chain : (bar_of r t >>= λ b. bars_of rs >>= λ bs. ok (b ∷ bs)) ≡ ok bs = rw e at made in
        let (b, first, chain') = >>=-eq-ok (bar_of r t) _ chain in
        let (later, rest, whole) = >>=-eq-ok (bars_of rs) _ chain' in
        let same : b ∷ later ≡ bs = cc in
        let (le, below) = rw e at d in
        IsAscending-cons lo t b later bs (ground arith) (bar_of-ts r t b first)
          (bars_of-IsAscending t rs later below rest) same
  ]

  -- When the rows that the cache has of a ticker make bars, `fetch_bars` gives all those from `start`
  -- on that are not after `end` or after the clock, in the order of their stamps, and no other.
  pub fetch_bars-window :
      (cache : Cache F) (now : Time) (ticker : Ticker) (start end : Time) (bars : List (Bar F))
      → bars_prepared cache ticker ≡ ok bars
      → (fetch_bars cache now ticker start end ≡ ok (keep (is_within start (min end now)) bars))
        × IsAscending 0 bars
  unfolding fetch_bars bars_prepared
  fetch_bars-window cache now ticker start end bars made =
      let rows = cache.bars ticker in
      let d = bars_of-IsAscending 0 (sort_rows rows) bars (sort_rows-AreAscending rows) made in
      (
        rw (fetch_bars, bars_prepared, made) (ap ok (drop-take-keep start (min end now) 0 bars d)),
        d,
      )
