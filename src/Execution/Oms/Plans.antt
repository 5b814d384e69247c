-- ===== src/Execution/Oms/Plans.antt =====
-- A whole plan of execution/oms.py, its slices worked one at a time.
use squeeze_hunter.Prelude.{
  ℕ, ◌+◌, length, ◌≡◌, Bool, false, Option, none, List, [], ◌∷◌, Outcome, ok, raised,
}
use squeeze_hunter.Prelude.Floats.{Floats}
use squeeze_hunter.Prelude.Int.{sub_ℕ}
use squeeze_hunter.Broker.{OrderId, Time, BrokerOrder}
use squeeze_hunter.Execution.Slicing.{TwapPlan}
use squeeze_hunter.Execution.Lifecycle.{BrokerCalls}
use squeeze_hunter.Execution.Oms.Execute.{ExecutionResult, Progress, order_fill, total_qty}
use squeeze_hunter.Execution.Oms.Working.{IsSeen}

module _ {F : Type 0} where
  -- The shares that the orders filled.
  abbrev pub fills : List (BrokerOrder F) → ℕ
  fills [] = 0
  fills (o ∷ os) = order_fill o + fills os

  -- The progress counts the shares of its orders, of which there are n.
  abbrev Counted : ℕ → Progress F → Type 0
  Counted n p = (p.cumulative_qty ≡ fills p.orders) × (length p.orders ≡ n)

module _ {F W : Type 0} (working : W → Option OrderId) (overlap : W → Bool) where
  abbrev AllWorked : TwapPlan F → Outcome (ExecutionResult F) × W → Type 0
  AllWorked plan (ok result, w) =
      (overlap w ≡ false)
      × (working w ≡ none)
      × (length result.orders ≡ length plan.slices)
      × (result.filled_qty ≡ fills result.orders)
      × (result.unfilled_qty ≡ sub_ℕ (total_qty plan.slices) (fills result.orders))
  AllWorked plan (raised e, w) = overlap w ≡ false

module _ {F W : Type 0} ⦃f : Floats F⦄ (b : BrokerCalls F W) (clock : W → Time) (sleep : F → W → W)
    (working : W → Option OrderId) (overlap : W → Bool)
    (seen : IsSeen b sleep working overlap) where
  -- The progress of a run that returned.
  abbrev CountedIfOk : ℕ → Outcome (Progress F) × W → Type 0
  CountedIfOk n (ok p, w) = Counted n p
  CountedIfOk n (raised e, w) = Unit

module _ {F W : Type 0} (unsettled : W → Option OrderId) (overlap failed : W → Bool) where
  -- What a call of `execute` for a plan gives back.
  abbrev pub WorkedThrough : TwapPlan F → Outcome (ExecutionResult F) × W → Type 0
  WorkedThrough plan (ok result, w) =
      (failed w ≡ false → (overlap w ≡ false) × (unsettled w ≡ none))
      × (length result.orders ≡ length plan.slices)
      × (result.filled_qty ≡ fills result.orders)
      × (result.unfilled_qty ≡ sub_ℕ (total_qty plan.slices) (fills result.orders))
  WorkedThrough plan (raised e, w) = failed w ≡ false → overlap w ≡ false
