-- ===== src/Execution/Lifecycle/Cancel.antt =====
-- `_cancel_and_confirm` of execution/lifecycle.py.
use squeeze_hunter.Prelude.{
  ℕ, zero, suc, Bool, true, false, ◌||◌, none, some, List, [], ◌∷◌, Outcome, ok, raised,
  if◌then◌else◌, contains,
}
use squeeze_hunter.Broker.{OrderId, BrokerOrder}
use squeeze_hunter.Execution.Lifecycle.{BrokerCalls, is_transient}

-- `_CANCEL_CONFIRM_POLLS`
abbrev pub cancel_confirm_polls : ℕ
cancel_confirm_polls = 10

module _ {F : Type 0} where
  -- `any(o.broker_order_id in wanted for o in open_orders)`
  abbrev pub any_wanted : List OrderId → List (BrokerOrder F) → Bool
  any_wanted wanted [] = false
  any_wanted wanted (o ∷ os) = contains o.broker_order_id wanted || any_wanted wanted os

module _ {F W : Type 0} (b : BrokerCalls F W) where
  -- A transient failure of one cancel is logged and the next is tried.
  unfoldable pub cancel_all : List OrderId → W → Outcome (Unit {0}) × W
  cancel_all [] w = (ok tt, w)
  cancel_all (id ∷ ids) w =
      let (r, w') = b.cancel_order id w in
      elim r [
        | ok _ ↦ cancel_all ids w'
        | raised e ↦ if is_transient e then cancel_all ids w' else (raised e, w')
      ]

  -- At most so many polls; true once none of the wanted orders is open.
  unfoldable pub confirm :
      (W → Outcome (List (BrokerOrder F)) × W) → List OrderId → ℕ → W → Outcome Bool × W
  confirm get_open wanted zero w = (ok false, w)
  confirm get_open wanted (suc polls) w =
      let (r, w') = get_open w in
      elim r [
        | ok orders ↦ elim (any_wanted wanted orders) [
          | false ↦ (ok true, w')
          | true ↦ confirm get_open wanted polls w'
        ]
        | raised e ↦ if is_transient e then (ok false, w') else (raised e, w')
      ]

  unfoldable pub cancel_and_confirm : List OrderId → W → Outcome Bool × W
  cancel_and_confirm order_ids w =
      let (r, w') = cancel_all order_ids w in
      elim r [
        | raised e ↦ (raised e, w')
        | ok _ ↦ elim b.get_open_orders [
          | none ↦ (ok true, w')
          | some get_open ↦ confirm get_open order_ids cancel_confirm_polls w'
        ]
      ]
