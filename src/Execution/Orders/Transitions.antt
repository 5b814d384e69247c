-- ===== src/Execution/Orders/Transitions.antt =====
-- The state machine of execution/orders.py, over any reports of the broker.
use squeeze_hunter.Prelude.{
  ℕ, ◌≤◌, ◌<◌, ◌≡◌, ◌⊎◌, ◌↔◌, true, List, [], ◌∷◌, Outcome, ok, raised, invalid_transition, ◌>>=◌,
  >>=-eq-ok, arith,
}
use squeeze_hunter.Prelude.Floats.{Floats}
use squeeze_hunter.Broker.{Time, Status, BrokerOrder}
use squeeze_hunter.Execution.Orders.{
  OrderState, OrderRecord, is_terminal, state_from_broker_order, apply,
}

-- How far an order has come.
abbrev pub rank : OrderState → ℕ
rank OrderState.pending = 0
rank OrderState.routed = 1
rank OrderState.partial = 2
rank _ = 3

module _ {F : Type 0} where
  -- Two records of one order, the second not behind the first: the state has not gone back, no fill
  -- is lost, and what was submitted is the same.
  pub record Follows (r r' : OrderRecord F) : Type 0 where
    pub no_way_back : rank r.state ≤ rank r'.state
    pub fills_kept : r.filled_qty ≤ r'.filled_qty
    pub same_id : r'.order_id ≡ r.order_id
    pub same_ticker : r'.ticker ≡ r.ticker
    pub same_side : r'.side ≡ r.side
    pub same_qty : r'.qty ≡ r.qty
    pub same_purpose : r'.purpose ≡ r.purpose
    pub same_submission : r'.submitted_at ≡ r.submitted_at

module _ {F : Type 0} ⦃f : Floats F⦄ where
  pub apply-Follows :
      (r : OrderRecord F) (bo : BrokerOrder F) (now : Time) {r' : OrderRecord F}
      → apply r bo now ≡ ok r'
      → Follows r r'
  unfolding apply
  apply-Follows r bo now h = ground arith

  Follows-trans : {r s t : OrderRecord F} → Follows r s → Follows s t → Follows r t
  Follows-trans h k = ground arith

  -- Any number of reports, folded into the record one after the other.
  unfoldable pub apply_all : List (BrokerOrder F × Time) → OrderRecord F → Outcome (OrderRecord F)
  apply_all [] r = ok r
  apply_all ((bo, now) ∷ reports) r = apply r bo now >>= apply_all reports

  -- However many reports an order absorbs without an error, its state never goes back, no fill is
  -- lost, and its id, ticker, side, quantity, purpose and submission time are those it began with.
  pub apply_all-Follows :
      (reports : List (BrokerOrder F × Time)) (r : OrderRecord F) {last : OrderRecord F}
      → apply_all reports r ≡ ok last
      → Follows r last
  unfolding apply_all
  apply_all-Follows [] r e = ground arith
  apply_all-Follows ((bo, now) ∷ reports) r e =
      let (s, first, rest) = >>=-eq-ok (apply r bo now) (apply_all reports) e in
      Follows-trans (apply-Follows r bo now first) (apply_all-Follows reports s rest)

  -- A report is refused exactly when the order has ended, or is partly filled and the report would
  -- reject it or take it back to a state with nothing filled.
  pub apply_raises_iff :
      (r : OrderRecord F) (bo : BrokerOrder F) (now : Time)
      → (apply r bo now ≡ raised invalid_transition) ↔ (
          (is_terminal r ≡ true)
          ⊎ ((r.state ≡ OrderState.partial)
              × ((bo.status ≡ Status.rejected) ⊎ (rank (state_from_broker_order bo) < 2))))
  unfolding apply
  apply_raises_iff r bo now = ground arith
