-- ===== src/Tests/Replay.antt =====
-- data/providers/backtest.py on rows out of order, one of them after the clock.
use squeeze_hunter.Prelude.{◌≡◌, refl, min, Option, none, some, [], ◌∷◌, ok, keep}
use squeeze_hunter.Prelude.Fixed.{Fixed, fixed_floats}
use squeeze_hunter.Broker.{Time}
use squeeze_hunter.Data.{Bar, ohlc_consistent}
use squeeze_hunter.Data.Replay.{BarRow, Cache, bars_of, bars_prepared, fetch_bars}
use squeeze_hunter.Data.Replay.Window.{IsAscending, is_within, fetch_bars-window}

abbrev row : Option Time → BarRow Fixed
row ts = record {
  ticker = 1;
  ts = ts;
  open_price = fixed_floats.dec 10 0;
  high = fixed_floats.dec 9 0;
  low = fixed_floats.dec 8 0;
  close = fixed_floats.dec 11 0;
  volume = 100;
}

abbrev bar : Time → Bar Fixed
bar ts = record {
  ticker = 1;
  ts = ts;
  open_price = fixed_floats.dec 10 0;
  high = fixed_floats.dec 11 0;
  low = fixed_floats.dec 8 0;
  close = fixed_floats.dec 11 0;
  volume = 100;
}

abbrev cache : Cache Fixed
cache = record {
  bars = λ t. row (some 30) ∷ row none ∷ row (some 10) ∷ row (some 20) ∷ [];
  options = λ t d. [];
  short_interest = [];
  earnings = [];
  sentiment = λ d. [];
}

prepared : bars_prepared cache 1 ≡ ok (bar 10 ∷ bar 20 ∷ bar 30 ∷ [])
unfolding bars_prepared bars_of ohlc_consistent
prepared = refl

-- The bar of the time 30 is after the clock.
fetched : fetch_bars cache 25 1 15 40 ≡ ok (bar 20 ∷ [])
unfolding fetch_bars bars_prepared bars_of ohlc_consistent
fetched = refl

fetch_bars-window_example :
    (fetch_bars cache 25 1 15 40
      ≡ ok (keep (is_within 15 (min 40 25)) (bar 10 ∷ bar 20 ∷ bar 30 ∷ [])))
    × IsAscending 0 (bar 10 ∷ bar 20 ∷ bar 30 ∷ [])
fetch_bars-window_example =
    fetch_bars-window cache 25 1 15 40 (bar 10 ∷ bar 20 ∷ bar 30 ∷ []) prepared
