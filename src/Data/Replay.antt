-- ===== src/Data/Replay.antt =====
-- data/providers/backtest.py: the history replayed up to a clock. The rows of a partition, parsed,
-- are what the cache holds.
pub mod Window
use squeeze_hunter.Prelude.{
  ℕ, ◌-◌, zero, suc, ◌*◌, ◌/◌, min, Bool, true, false, ◌&&◌, Option, none, some, List, [], ◌∷◌,
  Outcome, ok, raised, lookup_error, value_error, ◌>>=◌, if◌then◌else◌, ltb, leb, ◌==◌, drop, take,
  last, keep, map, get_or,
}
use squeeze_hunter.Prelude.Floats.{Floats, nought, fmax, fmin}
use squeeze_hunter.Broker.{Ticker, Time}
use squeeze_hunter.Risk.Killswitch.{day}
use squeeze_hunter.Data.{
  Date, Bar, Quote, ohlc_consistent, OptionQuote, OptionChain, ShortInterest, EarningsEvent,
  RedditMention,
}

-- `bisect_left` and `bisect_right` on an ascending list.
abbrev pub bisect_left : List Time → Time → ℕ
bisect_left [] x = 0
bisect_left (t ∷ ts) x = if ltb t x then suc (bisect_left ts x) else 0

abbrev pub bisect_right : List Time → Time → ℕ
bisect_right [] x = 0
bisect_right (t ∷ ts) x = if leb t x then suc (bisect_right ts x) else 0

-- The order of the stamps, with those that are missing last.
abbrev pub stamp_le : Option Time → Option Time → Bool
stamp_le s none = true
stamp_le none (some b) = false
stamp_le (some a) (some b) = leb a b

abbrev utc_midnight : Time → Time
utc_midnight ts = ts / day * day

module _ (F : Type 0) where
  pub record BarRow : Type 0 where
    pub ticker : Ticker
    pub ts : Option Time
    pub open_price : F
    pub high : F
    pub low : F
    pub close : F
    pub volume : ℕ

  -- A row of an option partition, with the price of the underlying.
  pub record OptionRow : Type 0 where
    pub quote : OptionQuote F
    pub spot : Option F

  -- `ParquetCache.read_partition`, by partition.
  pub record Cache : Type 0 where
    pub bars : Ticker → List BarRow
    pub options : Ticker → Date → List OptionRow
    pub short_interest : List (ShortInterest F)
    pub earnings : List (EarningsEvent F)
    pub sentiment : Date → List (RedditMention F)

module _ {F : Type 0} where
  abbrev place_row : BarRow F → List (BarRow F) → List (BarRow F)
  place_row r [] = r ∷ []
  place_row r (x ∷ xs) = if stamp_le r.ts x.ts then r ∷ x ∷ xs else x ∷ place_row r xs

  -- `sort_values("ts", kind="stable")`
  abbrev pub sort_rows : List (BarRow F) → List (BarRow F)
  sort_rows [] = []
  sort_rows (r ∷ rs) = place_row r (sort_rows rs)

  abbrev pub stamp_of : Bar F → Time
  stamp_of b = b.ts

  abbrev quote_of : OptionRow F → OptionQuote F
  quote_of r = r.quote

module _ {F : Type 0} ⦃f : Floats F⦄ where
  -- The high and the low are clamped, so that they bound the open and the close.
  abbrev bar_of : BarRow F → Time → Outcome (Bar F)
  bar_of r ts = ohlc_consistent (record {
    ticker = r.ticker;
    ts = ts;
    open_price = r.open_price;
    high = fmax (fmax r.high r.open_price) r.close;
    low = fmin (fmin r.low r.open_price) r.close;
    close = r.close;
    volume = r.volume;
  })

  unfoldable pub bars_of : List (BarRow F) → Outcome (List (Bar F))
  bars_of [] = ok []
  bars_of (r ∷ rs) = elim r.ts [
    | none ↦ bars_of rs
    | some ts ↦ bar_of r ts >>= λ b. bars_of rs >>= λ bs. ok (b ∷ bs)
  ]

  unfoldable pub bars_prepared : Cache F → Ticker → Outcome (List (Bar F))
  bars_prepared cache ticker = bars_of (sort_rows (cache.bars ticker))

module _ {F : Type 0} ⦃f : Floats F⦄ (cache : Cache F) (now : Time) where
  unfoldable pub fetch_bars : Ticker → Time → Time → Outcome (List (Bar F))
  fetch_bars ticker start end = do
    bars ← bars_prepared cache ticker
    let stamps = map stamp_of bars
    ok (drop (bisect_left stamps start) (take (bisect_right stamps (min end now)) bars))

  pub fetch_quote : Ticker → Outcome (Quote F)
  fetch_quote ticker = fetch_bars ticker (utc_midnight now) now >>= λ bars. elim (last bars) [
    | none ↦ raised lookup_error
    | some b ↦
        ok (record { ticker = ticker; ts = b.ts; bid = b.close; ask = b.close; last = b.close })
  ]

  pub fetch_option_chain_at : Ticker → Time → OptionChain F
  fetch_option_chain_at ticker as_of =
      let empty : OptionChain F = record {
        underlying = ticker;
        as_of = as_of;
        spot = nought;
        quotes = [];
      } in
      if ltb now as_of then empty else elim (cache.options ticker (as_of / day)) [
        | [] ↦ empty
        | r ∷ rs ↦ record {
          underlying = ticker;
          as_of = as_of;
          spot = get_or r.spot nought;
          quotes = map quote_of (r ∷ rs);
        }
      ]

  pub fetch_option_chain : Ticker → OptionChain F
  fetch_option_chain ticker = elim (cache.options ticker (now / day)) [
    | [] ↦ record { underlying = ticker; as_of = now; spot = nought; quotes = [] }
    | r ∷ rs ↦ record {
      underlying = ticker;
      as_of = now;
      spot = get_or r.spot nought;
      quotes = map quote_of (r ∷ rs);
    }
  ]

  unfoldable pub fetch_earnings : Ticker → Option Date → List (EarningsEvent F)
  fetch_earnings ticker since =
      keep
        (λ r.
          r.ticker == ticker
          && leb r.report_at now
          && elim since [ none ↦ true | some d ↦ leb d (r.report_at / day) ])
        cache.earnings

  pub fetch_sentiment : Ticker → Time → Option (RedditMention F)
  fetch_sentiment ticker as_of =
      elim (last (keep (λ m. m.ticker == ticker) (cache.sentiment (as_of / day)))) [
        | none ↦ none
        | some m ↦ some (record m { as_of = as_of })
      ]

-- `publication_lag` adds the lag in NYSE sessions to a settlement date, when there is one.
module _ {F : Type 0} (cache : Cache F) (publication_lag : Option (Date → Date)) (now : Time) where
  abbrev pub available : ShortInterest F → Date
  available r = elim publication_lag [ none ↦ r.settlement_date | some lag ↦ lag r.settlement_date ]

  unfoldable pub fetch_short_interest : Ticker → Option Date → List (ShortInterest F)
  fetch_short_interest ticker since =
      keep
        (λ r.
          r.ticker == ticker
          && leb (available r) (now / day)
          && elim since [ none ↦ true | some d ↦ leb d r.settlement_date ])
        cache.short_interest
