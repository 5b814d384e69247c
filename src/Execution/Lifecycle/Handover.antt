-- ===== src/Execution/Lifecycle/Handover.antt =====
-- execution/lifecycle.py sends no second exit order while an earlier one may be alive.
use squeeze_hunter.Prelude.{
  ℕ, zero, suc, ◌≡◌, ◌≢◌, ◌∙◌, ap, inl, inr, true, false, some, List, [], ◌∷◌, Outcome, ok, raised,
  List-cases, Bool-cases, Outcome-cases,
}
use squeeze_hunter.Prelude.Floats.{Floats}
use squeeze_hunter.Broker.{Ticker, OrderId, Time, BrokerOrder}
use squeeze_hunter.Execution.Book.{Position}
use squeeze_hunter.Execution.Decisions.{ExitDecision}
use squeeze_hunter.Execution.Lifecycle.{BrokerCalls, LifecycleState, is_transient}
use squeeze_hunter.Execution.Lifecycle.Cancel.{
  any_wanted, cancel_all, confirm, cancel_and_confirm, cancel_confirm_polls,
}
use squeeze_hunter.Execution.Lifecycle.Process.{replace_pending}
use squeeze_hunter.Execution.Lifecycle.Quiet.{cancel_and_confirm-quiet}
use squeeze_hunter.Execution.Lifecycle.Sales.{Sales, IsSalesLog}

module _ {F W : Type 0} (b : BrokerCalls F W) where
  -- The broker has reported, in some state, open orders with none of these among them.
  abbrev pub ReportedDead : List OrderId → (W → Outcome (List (BrokerOrder F)) × W) → Type 0
  ReportedDead wanted get_open =
      (w : W) × (orders : List (BrokerOrder F)) × ((get_open w).0 ≡ ok orders)
      × (any_wanted wanted orders ≡ false)

  confirm-saw_none :
      (get_open : W → Outcome (List (BrokerOrder F)) × W) (wanted : List OrderId) (polls : ℕ)
      (w : W)
      → (confirm b get_open wanted polls w).0 ≡ ok true
      → ReportedDead wanted get_open
  unfolding confirm
  confirm-saw_none get_open wanted zero w e = cc
  confirm-saw_none get_open wanted (suc polls) w e = elim (Outcome-cases (get_open w).0) [
    | inl (orders, r) ↦ elim (Bool-cases (any_wanted wanted orders)) [
      | inl t ↦ confirm-saw_none get_open wanted polls (get_open w).1 (rw (r, t, confirm) at e)
      | inr t ↦ (w, orders, r, t)
    ]
    | inr (x, r) ↦ elim (Bool-cases (is_transient x)) [
      | inl t ↦ let e' : ok false ≡ ok true = rw (r, t, confirm) at e in cc
      | inr t ↦ let e' : raised x ≡ ok true = rw (r, t, confirm) at e in cc
    ]
  ]

  cancel_and_confirm-saw_none :
      (get_open : W → Outcome (List (BrokerOrder F)) × W) (wanted : List OrderId) (w : W)
      → b.get_open_orders ≡ some get_open
      → (cancel_and_confirm b wanted w).0 ≡ ok true
      → ReportedDead wanted get_open
  unfolding cancel_and_confirm
  cancel_and_confirm-saw_none get_open wanted w g e =
      let w' = (cancel_all b wanted w).1 in
      elim (Outcome-cases (cancel_all b wanted w).0) [
        | inl (_, r) ↦
            confirm-saw_none get_open wanted cancel_confirm_polls w'
              (rw (cancel_and_confirm, r, g) at e)
        | inr (x, r) ↦ let e' : raised x ≡ ok true = rw (cancel_and_confirm, r) at e in cc
      ]

module _ {F W : Type 0} ⦃f : Floats F⦄ (b : BrokerCalls F W) (log : W → Sales)
    (h : IsSalesLog b log) (now : Time) (ticker : Ticker) where
  -- With an exit order pending at a broker that has a sales log and lists its open orders, `replace_pending` sends a
  -- sell order only when the broker has reported open orders with no pending one among them.
  pub replace_pending-ReportedDead :
      (meta : Position F) (price : F) (d : ExitDecision F) (s : LifecycleState F) (w : W)
      (get_open : W → Outcome (List (BrokerOrder F)) × W)
      → b.get_open_orders ≡ some get_open
      → meta.pending_exits ≢ []
      → log (replace_pending b now ticker meta price d s w).2 ≢ log w
      → ReportedDead b meta.pending_exits get_open
  unfolding replace_pending
  replace_pending-ReportedDead meta price d s w get_open g pending sold =
      let after = log (replace_pending b now ticker meta price d s w).2 in
      elim (List-cases meta.pending_exits) [
        | inl e ↦ elim (pending e) [ ]
        | inr (id, ids, e) ↦
            let quiet = cancel_and_confirm-quiet b log h.quiet (id ∷ ids) w in
            elim (Outcome-cases (cancel_and_confirm b (id ∷ ids) w).0) [
              | inr (x, r) ↦
                  let same : after ≡ log w = rw (replace_pending, e, r) quiet in
                  elim (sold same) [ ]
              | inl (confirmed, r) ↦ elim (Bool-cases confirmed) [
                | inr c ↦
                    let same : after ≡ log w = rw (replace_pending, e, r, c) quiet in
                    elim (sold same) [ ]
                | inl c ↦ rw e (cancel_and_confirm-saw_none b get_open (id ∷ ids) w g (r ∙ ap ok c))
              ]
            ]
      ]
