-- ===== src/Execution/Slicing.antt =====
-- execution/slicing.py: an entry order cut into limit orders spread over the opening window.
pub mod Schedule
use squeeze_hunter.Prelude.{
  ℕ, zero, suc, ◌+◌, ◌-◌, ◌*◌, ◌/◌, min, max, Bool, ◌||◌, List, [], ◌∷◌, Outcome, ok, ◌>>=◌,
  if◌then◌else◌, ◌==◌,
}
use squeeze_hunter.Prelude.Int.{ℤ, pos, pos_part, leb_ℤ, sub_ℕ}
use squeeze_hunter.Prelude.Floats.{Floats, of_nat, divide}
use squeeze_hunter.Broker.{Ticker, Side, Time}

abbrev pub seconds : ℕ → Time
seconds n = n * 1000000

pub record Slice (F : Type 0) : Type 0 where
  pub submit_at : Time
  pub qty : ℕ
  pub limit_price : F
  pub aggression_bps : F

pub record TwapPlan (F : Type 0) : Type 0 where
  pub ticker : Ticker
  pub side : Side
  pub slices : List (Slice F)

-- The arguments of `build_twap_plan` that are the same for every slice.
pub record TwapParams (F : Type 0) : Type 0 where
  pub ticker : Ticker
  pub side : Side
  pub reference_price : F
  pub market_open : Time
  pub window_minutes : ℕ
  pub slice_offset_minutes : ℕ
  pub starting_aggression_bps : F
  pub ending_aggression_bps : F

-- The last slice takes the remainder.
abbrev pub slice_qty : ℕ → ℕ → ℕ → ℕ
slice_qty total n i = total / n + (if i == n - 1 then total - total / n * n else 0)

module _ {F : Type 0} ⦃f : Floats F⦄ where
  -- The entries from the index i on, of a schedule of n, two or more.
  schedule_from : ℕ → F → F → ℕ → ℕ → List F
  schedule_from n starting_bps ending_bps i zero = []
  schedule_from n starting_bps ending_bps i (suc rest) =
      f.add starting_bps
        (f.quotient (f.mul (f.sub ending_bps starting_bps) (of_nat i)) (of_nat (n - 1)))
      ∷ schedule_from n starting_bps ending_bps (suc i) rest

  pub default_aggression_schedule : ℤ → F → F → List F
  default_aggression_schedule n_slices starting_bps ending_bps =
      let n = pos_part n_slices in
      if n == 0
      then []
      else if n == 1
      then starting_bps ∷ []
      else schedule_from n starting_bps ending_bps 0 n

  -- `slices_submitted - slices_filled` may be negative.
  pub escalate_aggression : F → ℕ → ℕ → F → F → Outcome F
  escalate_aggression base_bps slices_submitted slices_filled marketable_bps threshold =
      if slices_submitted == 0 then ok base_bps else (do
        unfilled_pct ←
            divide (f.of_int (sub_ℕ slices_submitted slices_filled)) (of_nat slices_submitted)
        ok (if f.le threshold unfilled_pct then marketable_bps else base_bps))

  -- The limit price and the aggression of slice i of n.
  abbrev aggression : TwapParams F → ℕ → ℕ → F
  aggression p n i = f.add p.starting_aggression_bps (
      f.quotient (f.mul (f.sub p.ending_aggression_bps p.starting_aggression_bps) (of_nat i))
        (of_nat (max (n - 1) 1)))

  abbrev signed : Side → F → F
  signed Side.buy agg = agg
  signed Side.sell agg = f.neg agg

  abbrev pub spacing : TwapParams F → ℕ → Time
  spacing p n = seconds (p.window_minutes * 60 / max (n - 1) 1)

  abbrev pub start : TwapParams F → Time
  start p = p.market_open + seconds (p.slice_offset_minutes * 60)

  abbrev slice_at : TwapParams F → ℕ → ℕ → ℕ → Slice F
  slice_at p total n i =
      let agg = aggression p n i in
      record {
        submit_at = start p + spacing p n * i;
        qty = slice_qty total n i;
        limit_price =
            f.mul p.reference_price
              (f.add (of_nat 1) (f.quotient (signed p.side agg) (of_nat 10000)));
        aggression_bps = agg;
      }

  -- The loop: `rest` slices to come, of which the first has the index i. An empty one is left out.
  unfoldable pub slices_from : TwapParams F → ℕ → ℕ → ℕ → ℕ → List (Slice F)
  slices_from p total n i zero = []
  slices_from p total n i (suc rest) =
      let later = slices_from p total n (suc i) rest in
      if slice_qty total n i == 0 then later else slice_at p total n i ∷ later

  unfoldable pub build_twap_plan : TwapParams F → ℤ → ℤ → TwapPlan F
  build_twap_plan p total_qty n_slices =
      let n = min (pos_part n_slices) (pos_part total_qty) in
      record {
        ticker = p.ticker;
        side = p.side;
        slices =
            if leb_ℤ total_qty (pos 0) || leb_ℤ n_slices (pos 0)
            then []
            else slices_from p (pos_part total_qty) n 0 n;
      }
