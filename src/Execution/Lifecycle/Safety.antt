-- ===== src/Execution/Lifecycle/Safety.antt =====
-- The daemon of execution/lifecycle.py never sells more than it holds.
use mathlib.Core.Path.{subst}
use native.Mathlib.Nat.{le_trans}
use squeeze_hunter.Prelude.{
  ℕ, ◌≤◌, ◌≡◌, ◌∙◌, ap, refl, inl, inr, false, not, ◌||◌, ◌-◌, Option, some, Outcome, ok,
  List-cases, Bool-cases, Option-cases, Outcome-cases, arith,
}
use squeeze_hunter.Prelude.Int.{ℤ, pos, pos_part, leb_ℤ, ltb_ℤ}
use squeeze_hunter.Prelude.Dict.{lookup}
use squeeze_hunter.Prelude.Floats.{Floats, nought}
use squeeze_hunter.Broker.{Ticker, Time}
use squeeze_hunter.Execution.Book.{Position}
use squeeze_hunter.Execution.Decisions.{ExitDecision, apply_exit_decision, from_quote, decide_exit}
use squeeze_hunter.Execution.Decisions.Exits.{OrderedBy, decide_exit-OrderedBy}
use squeeze_hunter.Risk.Stops.{Action}
use squeeze_hunter.Execution.Lifecycle.{put, BrokerCalls, LifecycleState, is_transient}
use squeeze_hunter.Execution.Lifecycle.Cancel.{cancel_and_confirm}
use squeeze_hunter.Execution.Lifecycle.Process.{
  halve_pending, reconcile_halve, reconcile_with, reconcile, act_on_price, process_position,
  process_one_position, price_of,
}
use squeeze_hunter.Execution.Lifecycle.Quiet.{cancel_and_confirm-quiet}
use squeeze_hunter.Execution.Lifecycle.Sales.{
  Sales, IsSalesLog, SoldAtMost, replace_pending-SoldAtMost,
}

module _ {F : Type 0} ⦃f : Floats F⦄ where
  OrderedBy-most :
      (a : Action) (meta : Position F) (d : ExitDecision F) → OrderedBy meta d a → d.qty ≤ meta.qty
  OrderedBy-most Action.hold meta d o = ground arith
  OrderedBy-most Action.halve meta d o = ground arith
  OrderedBy-most Action.exit meta d o = ground arith

SoldAtMost-mono :
    (t : Ticker) {n m : ℕ} {before after : Sales}
    → n ≤ m
    → SoldAtMost t n before after
    → SoldAtMost t m before after
SoldAtMost-mono t le (inl same) = inl same
SoldAtMost-mono t le (inr (q, sold, most)) = inr (q, sold, le_trans most le)

module _ {F W : Type 0} ⦃f : Floats F⦄ (b : BrokerCalls F W) (log : W → Sales)
    (h : IsSalesLog b log) (now : Time) (ticker : Ticker) where
  -- Whatever is decided, no more than is held goes out.
  act_decided-SoldAtMost :
      (a : Action) (meta : Position F) (price : F) (d : ExitDecision F) (s : LifecycleState F)
      (w : W)
      → not (f.is_finite price) || f.le price nought ≡ false
      → decide_exit meta (from_quote price) s.params ≡ ok d
      → d.action ≡ a
      → d.qty ≤ meta.qty
      → SoldAtMost ticker meta.qty (log w) (log (act_on_price b now ticker meta price s w).2)
  unfolding act_on_price
  act_decided-SoldAtMost Action.hold meta price d s w good e a most =
      rw (act_on_price, good, e, a) (inl refl)
  act_decided-SoldAtMost Action.halve meta price d s w good e a most =
      let meta' = apply_exit_decision meta d in
      rw (act_on_price, good, e, a)
        (SoldAtMost-mono ticker most
          (replace_pending-SoldAtMost b log h now ticker meta' price d (put ticker meta' s) w))
  act_decided-SoldAtMost Action.exit meta price d s w good e a most =
      let meta' = apply_exit_decision meta d in
      rw (act_on_price, good, e, a)
        (SoldAtMost-mono ticker most
          (replace_pending-SoldAtMost b log h now ticker meta' price d (put ticker meta' s) w))

  act_on_price-SoldAtMost :
      (meta : Position F) (price : F) (s : LifecycleState F) (w : W)
      → SoldAtMost ticker meta.qty (log w) (log (act_on_price b now ticker meta price s w).2)
  unfolding act_on_price
  act_on_price-SoldAtMost meta price s w =
      elim (Bool-cases (not (f.is_finite price) || f.le price nought)) [
        | inl bad ↦ rw (act_on_price, bad) (inl refl)
        | inr good ↦ elim (Outcome-cases (decide_exit meta (from_quote price) s.params)) [
          | inr (x, e) ↦ rw (act_on_price, good, e) (inl refl)
          | inl (d, e) ↦ act_decided-SoldAtMost d.action meta price d s w good e refl (
              OrderedBy-most d.action meta d
                (decide_exit-OrderedBy meta (from_quote price) s.params d e))
        ]
      ]

  -- Reconciling leaves the sales alone, and what it passes on holds no more than before.
  abbrev Reconciled : Position F → W → Outcome (Option (Position F)) × LifecycleState F × W → Type 0
  Reconciled meta w o =
      (log o.2 ≡ log w) × ((meta' : Position F) → o.0 ≡ ok (some meta') → meta'.qty ≤ meta.qty)

  reconcile_halve-Reconciled :
      (meta : Position F) (filled : ℕ) (s : LifecycleState F) (w : W)
      → Reconciled meta w (reconcile_halve b now ticker meta filled s w)
  unfolding reconcile_halve
  reconcile_halve-Reconciled meta filled s w =
      let quiet = cancel_and_confirm-quiet b log h.quiet meta.pending_exits w in
      elim (Outcome-cases (cancel_and_confirm b meta.pending_exits w).0) [
        | inr (x, r) ↦ rw (reconcile_halve, r) (quiet, λ m e. cc)
        | inl (confirmed, r) ↦ elim (Bool-cases confirmed) [
          | inr c ↦ rw (reconcile_halve, r, c) (quiet, λ m e. cc)
          | inl c ↦ rw (reconcile_halve, r, c) (quiet, λ m e. ground arith)
        ]
      ]

  reconcile_with-Reconciled :
      (broker_qty : ℤ) (meta : Position F) (s : LifecycleState F) (w : W)
      → Reconciled meta w (reconcile_with b now ticker broker_qty meta s w)
  unfolding reconcile_with
  reconcile_with-Reconciled broker_qty meta s w = elim (Bool-cases (leb_ℤ broker_qty (pos 0))) [
    | inl flat ↦ rw (reconcile_with, flat) (refl, λ m e. cc)
    | inr up ↦ elim (Bool-cases (ltb_ℤ broker_qty (pos meta.qty))) [
      | inr same ↦ rw (reconcile_with, up, same) (refl, λ m e. ground arith)
      | inl less ↦
          let held = pos_part broker_qty in
          let meta' : Position F = record meta { qty = held } in
          let fewer : held ≤ meta.qty = ground arith in
          elim (Bool-cases (halve_pending meta.pending_action)) [
            | inr a ↦ rw (reconcile_with, up, less, a) (refl, λ m e. ground arith)
            | inl a ↦
                let (calm, most) =
                  reconcile_halve-Reconciled meta' (meta.qty - held) (put ticker meta' s) w in
                rw (reconcile_with, up, less, a) (calm, λ m e. le_trans (most m e) fewer)
          ]
    ]
  ]

  reconcile-Reconciled :
      (meta : Position F) (s : LifecycleState F) (w : W)
      → Reconciled meta w (reconcile b now ticker meta s w)
  unfolding reconcile
  reconcile-Reconciled meta s w = elim (List-cases meta.pending_exits) [
    | inl e ↦ rw (reconcile, e) (refl, λ m e. ground arith)
    | inr (id, ids, e) ↦
        let quiet = h.qty_quiet ticker w in
        elim (Outcome-cases (b.get_position_qty ticker w).0) [
          | inr (x, r) ↦ elim (Bool-cases (is_transient x)) [
            | inl t ↦ rw (reconcile, e, r, t) (quiet, λ m e. cc)
            | inr t ↦ rw (reconcile, e, r, t) (quiet, λ m e. cc)
          ]
          | inl (broker_qty, r) ↦
              let (calm, most) =
                reconcile_with-Reconciled broker_qty meta s (b.get_position_qty ticker w).1 in
              rw (reconcile, e, r) (calm ∙ quiet, most)
        ]
  ]

  process_position-SoldAtMost :
      (meta : Position F) (s : LifecycleState F) (w : W)
      → SoldAtMost ticker meta.qty (log w) (log (process_position b now ticker meta s w).2)
  unfolding process_position
  process_position-SoldAtMost meta s w =
      let quiet = h.quote_quiet ticker w in
      let w₁ = (b.fetch_quote ticker w).1 in
      elim (Outcome-cases (b.fetch_quote ticker w).0) [
        | inr (x, e) ↦ elim (Bool-cases (is_transient x)) [
          | inl t ↦ rw (process_position, e, t) (inl quiet)
          | inr t ↦ rw (process_position, e, t) (inl quiet)
        ]
        | inl (q, e) ↦
            let (calm, most) = reconcile-Reconciled meta s w₁ in
            let same = calm ∙ quiet in
            elim (Outcome-cases (reconcile b now ticker meta s w₁).0) [
              | inr (x, r) ↦ rw (process_position, e, r) (inl same)
              | inl (next, r) ↦ elim (Option-cases next) [
                | inl o ↦ rw (process_position, e, r, o) (inl same)
                | inr (meta', o) ↦
                    let (_, s', w₂) = reconcile b now ticker meta s w₁ in
                    let after = log (act_on_price b now ticker meta' (price_of q) s' w₂).2 in
                    let sold = act_on_price-SoldAtMost meta' (price_of q) s' w₂ in
                    let fewer = most meta' (r ∙ ap ok o) in
                    rw (process_position, e, r, o)
                      (SoldAtMost-mono ticker fewer
                        (subst (λ l. SoldAtMost ticker meta'.qty l after) same sold))
              ]
            ]
      ]

  -- For a broker with a sales log, processing a position of the book sends at most one sell order,
  -- for that ticker and for no more shares than the book held of it. That is also so when the call
  -- raises, and when an earlier order was cancelled first.
  pub process_one_position-SoldAtMost :
      (s : LifecycleState F) (w : W) (meta : Position F)
      → lookup ticker s.positions ≡ some meta
      → SoldAtMost ticker meta.qty (log w) (log (process_one_position b now ticker s w).2)
  unfolding process_one_position
  process_one_position-SoldAtMost s w meta e =
      rw (process_one_position, e) (process_position-SoldAtMost meta s w)
