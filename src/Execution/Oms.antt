-- ===== src/Execution/Oms.antt =====
-- execution/oms.py, `_await_terminal`: seeing one order through, by polls and then a cancel.
pub mod Execute
pub mod Working
pub mod Observed
pub mod Plans
use squeeze_hunter.Prelude.{
  ℕ, zero, suc, ◌+◌, ◌-◌, ◌*◌, ◌/◌, min, Bool, true, false, not, ◌&&◌, Option, none, some, List, [],
  ◌∷◌, ◌++◌, Outcome, ok, raised, ◌>>=◌, if◌then◌else◌, ltb, ◌==◌, length, get_or,
}
use squeeze_hunter.Prelude.Int.{ℤ, pos, pos_part, sub_ℕ}
use squeeze_hunter.Prelude.Floats.{Floats, nought, of_nat, divide, fmax, truthy}
use squeeze_hunter.Broker.{Ticker, OrderId, Time, Side, Status, Quote, BrokerOrder}
use squeeze_hunter.Execution.Pricing.{round_to_tick}
use squeeze_hunter.Execution.Slicing.{
  Slice, TwapPlan, default_aggression_schedule, escalate_aggression,
}
use squeeze_hunter.Execution.Lifecycle.{BrokerCalls, is_transient}

-- `in _TERMINAL`
abbrev pub is_ended : Status → Bool
is_ended Status.filled = true
is_ended Status.cancelled = true
is_ended Status.rejected = true
is_ended Status.expired = true
is_ended _ = false

module _ {F : Type 0} ⦃f : Floats F⦄ where
  -- How many polls the budget allows.
  abbrev pub max_polls : F → F → Outcome ℕ
  max_polls budget_s poll_s =
      if f.lt nought poll_s
      then (f.floor (f.quotient budget_s poll_s) >>= λ n. ok (pos_part n))
      else (f.floor (f.mul budget_s (of_nat 1000)) >>= λ n. ok (min (pos_part n) 10000))

-- `sleep` lets seconds pass.
module _ {F W : Type 0} ⦃f : Floats F⦄ (sleep : F → W → W) where
  abbrev pub pause : F → W → W
  pause poll_s w = if f.lt nought poll_s then sleep poll_s w else w

module _ {F W : Type 0} ⦃f : Floats F⦄ (b : BrokerCalls F W) (sleep : F → W → W) where
  -- Polls until the order has ended, the polls are used up, or one fails; with "it has ended".
  unfoldable pub poll_until_ended :
      OrderId → F → ℕ → BrokerOrder F → W → Outcome (BrokerOrder F × Bool) × W
  poll_until_ended id poll_s zero latest w = (ok (latest, false), w)
  poll_until_ended id poll_s (suc n) latest w =
      let (r, w') = b.get_order id (pause sleep poll_s w) in
      elim r [
        | raised e ↦ if is_transient e then (ok (latest, false), w') else (raised e, w')
        | ok none ↦ (ok (latest, false), w')
        | ok (some fetched) ↦ elim (is_ended fetched.status) [
          | true ↦ (ok (fetched, true), w')
          | false ↦ poll_until_ended id poll_s n fetched w'
        ]
      ]

  -- The polls after the cancel.
  unfoldable pub poll_cancelled : OrderId → F → ℕ → BrokerOrder F → W → Outcome (BrokerOrder F) × W
  poll_cancelled id poll_s zero latest w = (ok latest, w)
  poll_cancelled id poll_s (suc n) latest w =
      let (r, w') = b.get_order id w in
      elim r [
        | raised e ↦ if is_transient e then (ok latest, w') else (raised e, w')
        | ok none ↦ (ok latest, w')
        | ok (some fetched) ↦ elim (is_ended fetched.status) [
          | true ↦ (ok fetched, w')
          | false ↦ poll_cancelled id poll_s n fetched (pause sleep poll_s w')
        ]
      ]

  unfoldable pub cancel_and_poll : OrderId → F → BrokerOrder F → W → Outcome (BrokerOrder F) × W
  cancel_and_poll id poll_s latest w =
      let (r, w') = b.cancel_order id w in
      elim r [
        | raised e ↦ if is_transient e then (ok latest, w') else (raised e, w')
        | ok done ↦ poll_cancelled id poll_s 20 latest w'
      ]

  -- `_await_terminal`
  unfoldable pub await_terminal : BrokerOrder F → F → F → W → Outcome (BrokerOrder F) × W
  await_terminal order budget_s poll_s w =
      if is_ended order.status then (ok order, w) else elim (max_polls budget_s poll_s) [
        | raised e ↦ (raised e, w)
        | ok polls ↦
            let (r, w') = poll_until_ended order.broker_order_id poll_s polls order w in
            elim r [
              | raised e ↦ (raised e, w')
              | ok (latest, true) ↦ (ok latest, w')
              | ok (latest, false) ↦ cancel_and_poll order.broker_order_id poll_s latest w'
            ]
      ]
