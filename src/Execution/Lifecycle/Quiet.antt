-- ===== src/Execution/Lifecycle/Quiet.antt =====
-- Calls of the broker in execution/lifecycle.py that send no order.
use squeeze_hunter.Prelude.{
  ℕ, zero, suc, ◌≡◌, ◌∙◌, refl, inl, inr, some, List, [], ◌∷◌, Outcome, Option-cases, Outcome-cases,
  arith,
}
use squeeze_hunter.Broker.{Ticker, OrderId, BrokerOrder}
use squeeze_hunter.Execution.Lifecycle.{BrokerCalls}
use squeeze_hunter.Execution.Lifecycle.Cancel.{
  cancel_all, confirm, cancel_and_confirm, cancel_confirm_polls,
}

-- A record of the world that quotes, quantities, cancels and the list of open orders leave alone.
pub record IsQuiet {F W L : Type 0} (b : BrokerCalls F W) (log : W → L) : Type 0 where
  pub quote_quiet : (t : Ticker) (w : W) → log (b.fetch_quote t w).1 ≡ log w
  pub qty_quiet : (t : Ticker) (w : W) → log (b.get_position_qty t w).1 ≡ log w
  pub cancel_quiet : (id : OrderId) (w : W) → log (b.cancel_order id w).1 ≡ log w
  pub open_quiet :
      (get_open : W → Outcome (List (BrokerOrder F)) × W) (w : W)
      → b.get_open_orders ≡ some get_open
      → log (get_open w).1 ≡ log w

module _ {F W L : Type 0} (b : BrokerCalls F W) (log : W → L) (h : IsQuiet b log) where
  cancel_all-quiet : (ids : List OrderId) (w : W) → log (cancel_all b ids w).1 ≡ log w
  unfolding cancel_all
  cancel_all-quiet [] w = refl
  cancel_all-quiet (id ∷ ids) w =
      let rest = cancel_all-quiet ids (b.cancel_order id w).1 in
      let here = h.cancel_quiet id w in ground (arith, rest, here)

  confirm-quiet :
      (get_open : W → Outcome (List (BrokerOrder F)) × W) (wanted : List OrderId) (polls : ℕ)
      (w : W)
      → b.get_open_orders ≡ some get_open
      → log (confirm b get_open wanted polls w).1 ≡ log w
  unfolding confirm
  confirm-quiet get_open wanted zero w g = refl
  confirm-quiet get_open wanted (suc polls) w g =
      let rest = confirm-quiet get_open wanted polls (get_open w).1 g in
      let here = h.open_quiet get_open w g in ground (arith, rest, here)

  pub cancel_and_confirm-quiet :
      (ids : List OrderId) (w : W) → log (cancel_and_confirm b ids w).1 ≡ log w
  unfolding cancel_and_confirm
  cancel_and_confirm-quiet ids w =
      let cancelled = cancel_all-quiet ids w in
      let w' = (cancel_all b ids w).1 in
      elim (Outcome-cases (cancel_all b ids w).0) [
        | inl (_, e) ↦ elim (Option-cases b.get_open_orders) [
          | inl g ↦ rw (cancel_and_confirm, e, g) cancelled
          | inr (get_open, g) ↦
              rw (cancel_and_confirm, e, g)
                (confirm-quiet get_open ids cancel_confirm_polls w' g ∙ cancelled)
        ]
        | inr (x, e) ↦ rw (cancel_and_confirm, e) cancelled
      ]
