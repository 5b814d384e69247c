-- ===== src/Execution/Buys/Managed.antt =====
-- The lifecycle daemon of execution/lifecycle.py sends no buy order.
use squeeze_hunter.Prelude.{
  ℕ, ◌≡◌, ◌∙◌, refl, inl, inr, true, false, ◌||◌, not, none, some, List, [], ◌∷◌, Outcome, ok,
  arith, Bool-cases, Option-cases, Outcome-cases, List-cases, contains,
}
use squeeze_hunter.Prelude.Int.{ℤ, pos, leb_ℤ, ltb_ℤ}
use squeeze_hunter.Prelude.Dict.{lookup, keys}
use squeeze_hunter.Prelude.Floats.{Floats, nought}
use squeeze_hunter.Broker.{Ticker, Side, Time}
use squeeze_hunter.Risk.Stops.{Action}
use squeeze_hunter.Execution.Book.{Position}
use squeeze_hunter.Execution.Pricing.{round_to_tick}
use squeeze_hunter.Execution.Decisions.{ExitDecision, from_quote, apply_exit_decision, decide_exit}
use squeeze_hunter.Execution.Lifecycle.{BrokerCalls, LifecycleState, is_transient, put}
use squeeze_hunter.Execution.Lifecycle.Cancel.{cancel_and_confirm}
use squeeze_hunter.Execution.Lifecycle.Quiet.{cancel_and_confirm-quiet}
use squeeze_hunter.Execution.Lifecycle.Process.{
  halve_pending, price_of, reconcile_halve, reconcile_with, reconcile, submit, replace_pending,
  act_on_price, process_position, process_one_position, manage_one, manage_all, manage_positions,
}
use squeeze_hunter.Execution.Buys.{IsBuyLog}

module _ {F W L : Type 0} ⦃f : Floats F⦄ (b : BrokerCalls F W) (log : W → L) (h : IsBuyLog b log)
    (now : Time) (ticker : Ticker) where
  reconcile_halve-quiet :
      (meta : Position F) (filled : ℕ) (s : LifecycleState F) (w : W)
      → log (reconcile_halve b now ticker meta filled s w).2 ≡ log w
  unfolding reconcile_halve
  reconcile_halve-quiet meta filled s w =
      ground (arith, cancel_and_confirm-quiet b log h.quiet meta.pending_exits w)

  reconcile_with-quiet :
      (qty : ℤ) (meta : Position F) (s : LifecycleState F) (w : W)
      → log (reconcile_with b now ticker qty meta s w).2 ≡ log w
  unfolding reconcile_with
  reconcile_with-quiet qty meta s w = elim (Bool-cases (leb_ℤ qty (pos 0))) [
    | inl flat ↦ rw (reconcile_with, flat) refl
    | inr some_held ↦ elim (Bool-cases (ltb_ℤ qty (pos meta.qty))) [
      | inr whole ↦ rw (reconcile_with, some_held, whole) refl
      | inl less ↦ elim (Bool-cases (halve_pending meta.pending_action)) [
        | inr other ↦ rw (reconcile_with, some_held, less, other) refl
        | inl halving ↦
            rw (reconcile_with, some_held, less, halving) (reconcile_halve-quiet _ _ _ w)
      ]
    ]
  ]

  reconcile-quiet :
      (meta : Position F) (s : LifecycleState F) (w : W)
      → log (reconcile b now ticker meta s w).2 ≡ log w
  unfolding reconcile
  reconcile-quiet meta s w =
      let asked = b.get_position_qty ticker w in
      let here = h.qty_quiet ticker w in
      elim (List-cases meta.pending_exits) [
        | inl e ↦ rw (reconcile, e) refl
        | inr (id, ids, e) ↦ elim (Outcome-cases asked.0) [
          | inl (qty, r) ↦ rw (reconcile, e, r) (reconcile_with-quiet qty meta s asked.1 ∙ here)
          | inr (x, r) ↦ elim (Bool-cases (is_transient x)) [
            | inl c ↦ rw (reconcile, e, r, c) here
            | inr c ↦ rw (reconcile, e, r, c) here
          ]
        ]
      ]

  submit-quiet :
      (meta : Position F) (price : F) (d : ExitDecision F) (s : LifecycleState F) (w : W)
      → log (submit b now ticker meta price d s w).2 ≡ log w
  unfolding submit
  submit-quiet meta price d s w =
      elim (Outcome-cases (round_to_tick (f.mul price (f.dec 995 3)) Side.sell)) [
        | inr (x, e) ↦ rw (submit, e) refl
        | inl (limit, e) ↦
            let here = h.sell_quiet ticker d.qty (some limit) now w in
            elim (Outcome-cases (b.submit_sell ticker d.qty (some limit) now w).0) [
              | inl (order, r) ↦ rw (submit, e, r) here
              | inr (x, r) ↦ rw (submit, e, r) here
            ]
      ]

  replace_pending-quiet :
      (meta : Position F) (price : F) (d : ExitDecision F) (s : LifecycleState F) (w : W)
      → log (replace_pending b now ticker meta price d s w).2 ≡ log w
  unfolding replace_pending
  replace_pending-quiet meta price d s w = elim (List-cases meta.pending_exits) [
    | inl e ↦ rw (replace_pending, e) (submit-quiet meta price d s w)
    | inr (id, ids, e) ↦
        let cancelled = cancel_and_confirm b (id ∷ ids) w in
        let here = cancel_and_confirm-quiet b log h.quiet (id ∷ ids) w in
        elim (Outcome-cases cancelled.0) [
          | inr (x, r) ↦ rw (replace_pending, e, r) here
          | inl (false, r) ↦ rw (replace_pending, e, r) here
          | inl (true, r) ↦ rw (replace_pending, e, r) (submit-quiet _ price d _ cancelled.1 ∙ here)
        ]
  ]

  act_on_price-quiet :
      (meta : Position F) (price : F) (s : LifecycleState F) (w : W)
      → log (act_on_price b now ticker meta price s w).2 ≡ log w
  unfolding act_on_price
  act_on_price-quiet meta price s w =
      elim (Bool-cases (not (f.is_finite price) || f.le price nought)) [
        | inl unusable ↦ rw (act_on_price, unusable) refl
        | inr usable ↦ elim (Outcome-cases (decide_exit meta (from_quote price) s.params)) [
          | inr (x, e) ↦ rw (act_on_price, usable, e) refl
          | inl (d, e) ↦ rw (act_on_price, usable, e) (decided meta price d s w d.action)
        ]
      ]
    where
      decided :
          (meta : Position F) (price : F) (d : ExitDecision F) (s : LifecycleState F) (w : W)
          (action : Action)
          → log
              (let r : Outcome (Unit {0}) × LifecycleState F × W = elim action [
                | Action.hold ↦ (ok tt, put ticker (apply_exit_decision meta d) s, w)
                | _ ↦
                    replace_pending b now ticker
                      (apply_exit_decision meta d)
                      price
                      d
                      (put ticker (apply_exit_decision meta d) s)
                      w
              ] in
                r).2
            ≡ log w
      decided meta price d s w Action.hold = refl
      decided meta price d s w Action.halve = replace_pending-quiet _ price d _ w
      decided meta price d s w Action.exit = replace_pending-quiet _ price d _ w

  process_position-quiet :
      (meta : Position F) (s : LifecycleState F) (w : W)
      → log (process_position b now ticker meta s w).2 ≡ log w
  unfolding process_position
  process_position-quiet meta s w =
      let quoted = b.fetch_quote ticker w in
      let here = h.quote_quiet ticker w in
      let progress = reconcile b now ticker meta s quoted.1 in
      let then_here = reconcile-quiet meta s quoted.1 ∙ here in
      elim (Outcome-cases quoted.0) [
        | inr (x, e) ↦ elim (Bool-cases (is_transient x)) [
          | inl c ↦ rw (process_position, e, c) here
          | inr c ↦ rw (process_position, e, c) here
        ]
        | inl (q, e) ↦ elim (Outcome-cases progress.0) [
          | inr (x, r) ↦ rw (process_position, e, r) then_here
          | inl (none, r) ↦ rw (process_position, e, r) then_here
          | inl (some meta', r) ↦
              rw (process_position, e, r)
                (act_on_price-quiet meta' (price_of q) progress.1 progress.2 ∙ then_here)
        ]
      ]

  pub process_one_position-quiet :
      (s : LifecycleState F) (w : W) → log (process_one_position b now ticker s w).2 ≡ log w
  unfolding process_one_position
  process_one_position-quiet s w = elim (Option-cases (lookup ticker s.positions)) [
    | inl e ↦ rw (process_one_position, e) refl
    | inr (meta, e) ↦ rw (process_one_position, e) (process_position-quiet meta s w)
  ]

module _ {F W L : Type 0} ⦃f : Floats F⦄ (b : BrokerCalls F W) (log : W → L) (h : IsBuyLog b log)
    (now : Time) where
  manage_one-quiet :
      (t : Ticker) (s : LifecycleState F) (w : W) → log (manage_one b now t s w).2 ≡ log w
  unfolding manage_one
  manage_one-quiet t s w = elim (Bool-cases (contains t s.in_flight)) [
    | inl busy ↦ rw (manage_one, busy) refl
    | inr free ↦ rw (manage_one, free) (process_one_position-quiet b log h now t _ w)
  ]

  manage_all-quiet :
      (ts : List Ticker) (s : LifecycleState F) (w : W) → log (manage_all b now ts s w).2 ≡ log w
  unfolding manage_all
  manage_all-quiet [] s w = refl
  manage_all-quiet (t ∷ ts) s w =
      let one = manage_one b now t s w in
      let here = manage_one-quiet t s w in
      elim (Outcome-cases one.0) [
        | inl (done, e) ↦ rw (manage_all, e) (manage_all-quiet ts one.1 one.2 ∙ here)
        | inr (x, e) ↦ rw (manage_all, e) here
      ]

  pub manage_positions-quiet :
      (s : LifecycleState F) (w : W) → log (manage_positions b now s w).2 ≡ log w
  unfolding manage_positions
  manage_positions-quiet s w = manage_all-quiet (keys s.positions) s w
