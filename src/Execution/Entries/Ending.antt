-- ===== src/Execution/Entries/Ending.antt =====
-- What execution/entries.py asks of a broker so that an order comes to its end, and how the tracker
-- takes its reports in.
use squeeze_hunter.Prelude.{◌≡◌, refl, ◌∙◌, Bool, true, false, some, ok, if◌then◌else◌, ◌==◌, arith}
use squeeze_hunter.Prelude.Dict.{insert}
use squeeze_hunter.Prelude.Floats.{Floats}
use squeeze_hunter.Broker.{OrderId, Time, BrokerOrder}
use squeeze_hunter.Execution.Orders.{
  OrderState, allowed, bounce, OrderRecord, OrderTracker, is_terminal, is_terminal_state,
  state_from_broker_order, apply, get, update,
}
use squeeze_hunter.Execution.Orders.Tracker.{IsTracker, lookup-order_id, update-get}
use squeeze_hunter.Execution.Lifecycle.{BrokerCalls}
use squeeze_hunter.Execution.Entries.{EntryPath}
use squeeze_hunter.Execution.Entries.Settle.{note_order}

-- The states of an order that has ended without being rejected.
abbrev pub is_over : OrderState → Bool
is_over OrderState.filled = true
is_over OrderState.cancelled = true
is_over OrderState.expired = true
is_over _ = false

module _ {F W : Type 0} (b : BrokerCalls F W) (usual : W → Type 0) where
  -- The broker knows the order, and reports it in a state to which the record may go on.
  abbrev pub IsKnown : OrderId → OrderRecord F → Type 0
  IsKnown id r =
      (w : W)
      → usual w
      → (bo : BrokerOrder F) × ((b.get_order id w).0 ≡ ok (some bo))
        × (bo.broker_order_id ≡ id)
        × (allowed r.state (state_from_broker_order bo) ≡ true)

  -- Asked after a call to cancel it, the broker reports that the order is over.
  abbrev pub IsEnded : OrderId → Type 0
  IsEnded id =
      (w : W)
      → usual w
      → (done : Bool) × (bo : BrokerOrder F) × ((b.cancel_order id w).0 ≡ ok done)
        × ((b.get_order id (b.cancel_order id w).1).0 ≡ ok (some bo))
        × (bo.broker_order_id ≡ id)
        × (is_over (state_from_broker_order bo) ≡ true)

  -- A broker that answers so for the open orders of a tracker, in states that its calls keep.
  pub record EndsOrders (pending : OrderTracker F) : Type 0 where
    pub asked_usual : (id : OrderId) (w : W) → usual w → usual (b.get_order id w).1
    pub cancelled_usual : (id : OrderId) (w : W) → usual w → usual (b.cancel_order id w).1
    pub known :
        (id : OrderId) (r : OrderRecord F)
        → get id pending ≡ some r
        → is_terminal r ≡ false
        → IsKnown id r
    pub ended :
        (id : OrderId) (r : OrderRecord F)
        → get id pending ≡ some r
        → is_terminal r ≡ false
        → IsEnded id

pub open_allows :
    (state nxt : OrderState)
    → is_terminal_state state ≡ false
    → is_over nxt ≡ true
    → (allowed state nxt ≡ true) × (bounce state nxt ≡ nxt) × (is_terminal_state nxt ≡ true)
open_allows state nxt h p = ground arith

module _ {F : Type 0} ⦃f : Floats F⦄ where
  -- An open record takes such a report in.
  apply_progress :
      (r : OrderRecord F) (bo : BrokerOrder F) (now : Time)
      → allowed r.state (state_from_broker_order bo) ≡ true
      → (u : OrderRecord F) × (apply r bo now ≡ ok u)
        × (u.state ≡ bounce r.state (state_from_broker_order bo))
        × (u.order_id ≡ r.order_id)
  unfolding apply
  apply_progress r bo now passes = rw (apply, passes) (_, refl, refl, refl)

  -- So does the tracker that has it.
  pub note_order_progress :
      (bo : BrokerOrder F) (now : Time) (rec r : OrderRecord F) (s : EntryPath F)
      → IsTracker s.pending
      → get bo.broker_order_id s.pending ≡ some r
      → allowed r.state (state_from_broker_order bo) ≡ true
      → (u : OrderRecord F) × (pending : OrderTracker F) × (note_order now bo rec s
          ≡ ok (u, record s { pending = pending }))
        × (u.state ≡ bounce r.state (state_from_broker_order bo))
        × (u.order_id ≡ bo.broker_order_id)
        × ((j : OrderId)
            → get j pending ≡ (if j == bo.broker_order_id then some u else get j s.pending))
        × IsTracker pending
  unfolding note_order get update
  note_order_progress bo now rec r s t known passes =
      let (u, taken, state, same_id) = apply_progress r bo now passes in
      let id = lookup-order_id bo.broker_order_id s.pending r t known in
      let pending = insert u.order_id u s.pending in
      let updated : update bo now s.pending ≡ ok (some u, pending) =
        rw (update, known, taken) refl in
      let (tracks, applied, reads) = update-get bo now s.pending pending t updated in
      (u, pending, rw (note_order, updated) refl, state, same_id ∙ id, reads, tracks)
