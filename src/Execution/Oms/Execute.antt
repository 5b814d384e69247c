-- ===== src/Execution/Oms/Execute.antt =====
-- execution/oms.py, `execute`: driving a TWAP plan against a broker, one slice at a time.
use squeeze_hunter.Prelude.{
  ℕ, zero, suc, ◌+◌, ◌-◌, ◌/◌, min, Bool, true, false, not, ◌&&◌, Option, none, some, List, [], ◌∷◌,
  ◌++◌, Outcome, ok, raised, ◌>>=◌, if◌then◌else◌, ltb, ◌==◌, length, get_or,
}
use squeeze_hunter.Prelude.Int.{ℤ, pos, sub_ℕ}
use squeeze_hunter.Prelude.Floats.{Floats, nought, of_nat, fmax, truthy}
use squeeze_hunter.Broker.{Ticker, Time, Side, Status, Quote, BrokerOrder}
use squeeze_hunter.Execution.Pricing.{round_to_tick}
use squeeze_hunter.Execution.Slicing.{
  Slice, TwapPlan, default_aggression_schedule, escalate_aggression,
}
use squeeze_hunter.Execution.Lifecycle.{BrokerCalls, is_transient}
use squeeze_hunter.Execution.Oms.{await_terminal}

abbrev is_filled : Status → Bool
is_filled Status.filled = true
is_filled _ = false

module _ (F : Type 0) where
  -- What is unfilled may be negative, if the broker fills more than was ordered.
  pub record ExecutionResult : Type 0 where
    pub filled_qty : ℕ
    pub unfilled_qty : ℤ
    pub avg_fill_price : F
    pub orders : List (BrokerOrder F)

  -- The arguments of `execute`. With no `slice_fill_wait_s` the next slice's time is the budget.
  pub record OmsParams : Type 0 where
    pub marketable_bps : F
    pub poll_interval_s : F
    pub slice_fill_wait_s : Option F

  -- The locals of the loop.
  pub record Progress : Type 0 where
    pub max_wall_seconds : ℕ
    pub cumulative_qty : ℕ
    pub cumulative_value : F
    pub slices_filled : ℕ
    pub orders : List (BrokerOrder F)

module _ {F : Type 0} where
  abbrev entry_at : ℕ → List F → Option F
  entry_at i [] = none
  entry_at zero (x ∷ xs) = some x
  entry_at (suc i) (x ∷ xs) = entry_at i xs

  abbrev pub next_submit : List (Slice F) → Option Time
  next_submit [] = none
  next_submit (s ∷ rest) = some s.submit_at

  abbrev pub total_qty : List (Slice F) → ℕ
  total_qty [] = 0
  total_qty (s ∷ rest) = s.qty + total_qty rest

  -- What an order filled, by its count or by its status.
  abbrev pub order_fill : BrokerOrder F → ℕ
  order_fill o =
      if o.filled_qty == 0 then (if is_filled o.status then o.qty else 0) else o.filled_qty

module _ {F : Type 0} ⦃f : Floats F⦄ where
  -- The mid of a quote, or its last price, or else the slice's own.
  abbrev mid_of : Quote F → F → F
  mid_of q planned =
      let mid =
        if f.lt nought q.bid && f.lt nought q.ask
        then f.quotient (f.add q.bid q.ask) (of_nat 2)
        else q.last in
      if f.le mid nought then planned else mid

  abbrev limit_of : Side → F → F → Outcome F
  limit_of Side.buy mid agg_bps =
      round_to_tick (f.mul mid (f.add (of_nat 1) (f.quotient agg_bps (of_nat 10000)))) Side.buy
  limit_of Side.sell mid agg_bps =
      round_to_tick (f.mul mid (f.sub (of_nat 1) (f.quotient agg_bps (of_nat 10000)))) Side.sell

  abbrev fill_price : BrokerOrder F → F → F
  fill_price o limit = elim o.avg_fill_price [
    | none ↦ limit
    | some p ↦ if truthy p then p else limit
  ]

  -- The loop's bookkeeping once the order is done with.
  abbrev pub count_order : BrokerOrder F → F → Progress F → Progress F
  count_order o limit p =
      let filled = order_fill o in
      let px = fill_price o limit in
      record p {
        slices_filled = if is_filled o.status then suc p.slices_filled else p.slices_filled;
        cumulative_qty = p.cumulative_qty + filled;
        cumulative_value =
            if not (filled == 0) && truthy px
            then f.add p.cumulative_value (f.mul (of_nat filled) px)
            else p.cumulative_value;
        orders = p.orders ++ o ∷ [];
      }

  -- The limit of slice i: the mid with the aggression of the schedule, or more if fills lag.
  unfoldable pub slice_limit : OmsParams F → Side → List F → ℕ → ℕ → F → Outcome F
  slice_limit params side schedule i slices_filled mid = do
    let base_bps = get_or (entry_at i schedule) (of_nat 30)
    agg_bps ← escalate_aggression base_bps i slices_filled params.marketable_bps (f.dec 8 1)
    limit_of side mid agg_bps

-- `clock` reads the time; `sleep` lets seconds pass.
module _ {F W : Type 0} ⦃f : Floats F⦄ (clock : W → Time) where
  abbrev pub budget_of : Option F → Option Time → W → F
  budget_of (some given) next w = given
  budget_of none none w = of_nat 60
  budget_of none (some next) w =
      fmax nought (f.quotient (of_nat (next - clock w)) (of_nat 1_000_000))

module _ {F W : Type 0} ⦃f : Floats F⦄ (clock : W → Time) (sleep : F → W → W) where
  -- Waits for the slice's time, within what is left of `max_wall_seconds`.
  abbrev pub wait_for_slot : Time → Progress F → W → Progress F × W
  wait_for_slot submit_at p w =
      if ltb (clock w) submit_at && ltb 0 p.max_wall_seconds
      then (let wait_s = min p.max_wall_seconds ((submit_at - clock w) / 1_000_000) in
          (record p { max_wall_seconds = p.max_wall_seconds - wait_s }, sleep (of_nat wait_s) w))
      else (p, w)

module _ {F W : Type 0} ⦃f : Floats F⦄ (b : BrokerCalls F W) where
  -- A quote that fails falls back to the slice's own price.
  unfoldable pub fetch_mid : Ticker → F → W → Outcome F × W
  fetch_mid ticker planned w =
      let (r, w') = b.fetch_quote ticker w in
      elim r [
        | raised e ↦ if is_transient e then (ok planned, w') else (raised e, w')
        | ok q ↦ (ok (mid_of q planned), w')
      ]

module _ {F W : Type 0} (b : BrokerCalls F W) (clock : W → Time) where
  unfoldable pub submit_order : Side → Ticker → ℕ → F → W → Outcome (BrokerOrder F) × W
  submit_order Side.buy ticker qty limit w = b.submit_buy ticker qty (some limit) (clock w) w
  submit_order Side.sell ticker qty limit w = b.submit_sell ticker qty (some limit) (clock w) w

module _ {F W : Type 0} ⦃f : Floats F⦄ (b : BrokerCalls F W) (clock : W → Time)
    (sleep : F → W → W) where
  -- The slice's order, sent and seen through.
  unfoldable pub work_slice :
      OmsParams F → Side → Ticker → ℕ → F → Option Time → W → Outcome (BrokerOrder F) × W
  work_slice params side ticker qty limit next w =
      let (r, w') = submit_order b clock side ticker qty limit w in
      elim r [
        | raised e ↦ (raised e, w')
        | ok order ↦
            await_terminal b sleep order (budget_of clock params.slice_fill_wait_s next w')
              params.poll_interval_s w'
      ]

  -- The loop: slice i and those after it.
  unfoldable pub execute_from :
      OmsParams F
      → Side
      → Ticker
      → List F
      → ℕ
      → List (Slice F)
      → Progress F
      → W
      → Outcome (Progress F) × W
  execute_from params side ticker schedule i [] p w = (ok p, w)
  execute_from params side ticker schedule i (slc ∷ rest) p w =
      let (p', w1) = wait_for_slot clock sleep slc.submit_at p w in
      let (mid, w2) = fetch_mid b ticker slc.limit_price w1 in
      elim (mid >>= slice_limit params side schedule i p'.slices_filled) [
        | raised e ↦ (raised e, w2)
        | ok limit ↦
            let (r, w3) = work_slice params side ticker slc.qty limit (next_submit rest) w2 in
            elim r [
              | raised e ↦ (raised e, w3)
              | ok order ↦
                  execute_from params side ticker schedule (suc i) rest (count_order order limit p')
                    w3
            ]
      ]

  unfoldable pub execute : OmsParams F → ℕ → TwapPlan F → W → Outcome (ExecutionResult F) × W
  execute params max_wall_seconds plan w =
      let schedule =
        default_aggression_schedule (pos (length plan.slices)) (of_nat 5) (of_nat 30) in
      let start : Progress F = record {
        max_wall_seconds = max_wall_seconds;
        cumulative_qty = 0;
        cumulative_value = nought;
        slices_filled = 0;
        orders = [];
      } in
      let (r, w') = execute_from params plan.side plan.ticker schedule 0 plan.slices start w in
      elim r [
        | raised e ↦ (raised e, w')
        | ok p ↦ (
          ok (record {
            filled_qty = p.cumulative_qty;
            unfilled_qty = sub_ℕ (total_qty plan.slices) p.cumulative_qty;
            avg_fill_price =
                if ltb 0 p.cumulative_qty
                then f.quotient p.cumulative_value (of_nat p.cumulative_qty)
                else nought;
            orders = p.orders;
          }),
          w',
        )
      ]
