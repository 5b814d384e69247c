-- ===== src/Data.antt =====
-- data/schema.py: what the providers of market data give. Texts are only compared, so they are
-- numbers; a date is a number of days since the epoch.
pub mod Replay
use squeeze_hunter.Prelude.{
  ℕ, ◌+◌, Bool, true, false, ◌&&◌, Option, none, some, List, [], ◌∷◌, Outcome, ok, raised,
  value_error, ◌>>=◌, if◌then◌else◌, keep,
}
use squeeze_hunter.Prelude.Floats.{Floats, nought, of_nat, divide}
use squeeze_hunter.Broker.{Ticker, Time}

abbrev pub Date : Type 0
Date = ℕ

pub data Right : Type 0 where
  call put : Right

-- `right == "C"`
abbrev is_call : Right → Bool
is_call Right.call = true
is_call Right.put = false

module _ (F : Type 0) where
  pub record Bar : Type 0 where
    pub ticker : Ticker
    pub ts : Time
    pub open_price : F
    pub high : F
    pub low : F
    pub close : F
    pub volume : ℕ

  -- The sizes are left out: nothing reads them.
  pub record Quote : Type 0 where
    pub ticker : Ticker
    pub ts : Time
    pub bid : F
    pub ask : F
    pub last : F

  pub record OptionQuote : Type 0 where
    pub strike : F
    pub expiry : Date
    pub right : Right
    pub open_interest : ℕ
    pub volume : ℕ
    pub implied_vol : F
    pub bid : F
    pub ask : F

  pub record OptionChain : Type 0 where
    pub underlying : Ticker
    pub as_of : Time
    pub spot : F
    pub quotes : List OptionQuote

  pub record ShortInterest : Type 0 where
    pub ticker : Ticker
    pub settlement_date : Date
    pub si_shares : ℕ
    pub si_pct_float : F
    pub avg_daily_volume_20d : ℕ

  pub record EarningsEvent : Type 0 where
    pub ticker : Ticker
    pub report_at : Time
    pub actual_eps : Option F
    pub estimate_eps : Option F

  pub record RedditMention : Type 0 where
    pub ticker : Ticker
    pub as_of : Time
    pub subreddit : ℕ
    pub count_24h : ℕ
    pub baseline_30d_mean : F
    pub baseline_30d_std : F

module _ {F : Type 0} where
  abbrev total_open_interest : List (OptionQuote F) → ℕ
  total_open_interest [] = 0
  total_open_interest (q ∷ qs) = q.open_interest + total_open_interest qs

module _ {F : Type 0} ⦃f : Floats F⦄ where
  -- The validator: low and high bound open and close.
  unfoldable pub ohlc_consistent : Bar F → Outcome (Bar F)
  ohlc_consistent b =
      if f.le b.low b.open_price
        && f.le b.open_price b.high
        && f.le b.low b.close
        && f.le b.close b.high
      then ok b
      else raised value_error

  pub near_money_calls : OptionChain F → F → List (OptionQuote F)
  near_money_calls self window_pct =
      let lo = f.mul self.spot (f.sub (of_nat 1) window_pct) in
      let hi = f.mul self.spot (f.add (of_nat 1) window_pct) in
      keep (λ q. is_call q.right && f.le lo q.strike && f.le q.strike hi) self.quotes

  pub total_call_oi : OptionChain F → Option F → ℕ
  total_call_oi self none = total_open_interest (keep (λ q. is_call q.right) self.quotes)
  total_call_oi self (some near_money_window_pct) =
      total_open_interest (near_money_calls self near_money_window_pct)

  pub surprise_pct : EarningsEvent F → Outcome (Option F)
  surprise_pct self = elim self.actual_eps [
    | none ↦ ok none
    | some actual ↦ elim self.estimate_eps [
      | none ↦ ok none
      | some estimate ↦
          if f.eq estimate nought
          then ok none
          else (divide (f.sub actual estimate) (f.abs estimate) >>= λ surprise. ok (some surprise))
    ]
  ]

  pub z_score : RedditMention F → Outcome F
  z_score self =
      if f.le self.baseline_30d_std nought
      then ok nought
      else divide (f.sub (of_nat self.count_24h) self.baseline_30d_mean) self.baseline_30d_std
