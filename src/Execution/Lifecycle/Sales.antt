-- ===== src/Execution/Lifecycle/Sales.antt =====
-- The sell orders that the stages of execution/lifecycle.py send to the broker.
use mathlib.Core.Path.{subst}
use native.Mathlib.Nat.{le_refl}
use squeeze_hunter.Prelude.{
  ℕ, ◌≤◌, ◌≡◌, refl, ◌⊎◌, inl, inr, Option, some, List, [], ◌∷◌, ◌++◌, List-cases, Bool-cases,
  Outcome-cases,
}
use squeeze_hunter.Prelude.Floats.{Floats}
use squeeze_hunter.Execution.Pricing.{round_to_tick}
use squeeze_hunter.Broker.{Side, Ticker, Time}
use squeeze_hunter.Execution.Book.{Position}
use squeeze_hunter.Execution.Decisions.{ExitDecision}
use squeeze_hunter.Execution.Lifecycle.{put, BrokerCalls, LifecycleState}
use squeeze_hunter.Execution.Lifecycle.Cancel.{cancel_and_confirm}
use squeeze_hunter.Execution.Lifecycle.Quiet.{IsQuiet, cancel_and_confirm-quiet}
use squeeze_hunter.Execution.Lifecycle.Process.{submit, replace_pending}

abbrev pub Sales : Type 0
Sales = List (Ticker × ℕ)

-- A log of the sell orders that a broker was sent: its other calls leave the log alone, and each
-- `submit_sell` adds its ticker and quantity.
pub record IsSalesLog {F W : Type 0} (b : BrokerCalls F W) (log : W → Sales) : Type 0 where
  pub quiet : IsQuiet b log
  pub open quiet use *
  pub sell_logged :
      (t : Ticker) (q : ℕ) (limit : Option F) (ts : Time) (w : W)
      → log (b.submit_sell t q limit ts w).1 ≡ log w ++ (t, q) ∷ []

-- At most one new sale, of that ticker and of at most so many shares.
abbrev pub SoldAtMost : Ticker → ℕ → Sales → Sales → Type 0
SoldAtMost t n before after =
    (after ≡ before) ⊎ ((q : ℕ) × (after ≡ before ++ (t, q) ∷ []) × (q ≤ n))

module _ {F W : Type 0} ⦃f : Floats F⦄ (b : BrokerCalls F W) (log : W → Sales)
    (h : IsSalesLog b log) (now : Time) (ticker : Ticker) where
  submit-SoldAtMost :
      (meta : Position F) (price : F) (d : ExitDecision F) (s : LifecycleState F) (w : W)
      → SoldAtMost ticker d.qty (log w) (log (submit b now ticker meta price d s w).2)
  unfolding submit
  submit-SoldAtMost meta price d s w =
      elim (Outcome-cases (round_to_tick (f.mul price (f.dec 995 3)) Side.sell)) [
        | inr (x, e) ↦ rw (submit, e) (inl refl)
        | inl (limit, e) ↦
            let sold = h.sell_logged ticker d.qty (some limit) now w in
            elim (Outcome-cases (b.submit_sell ticker d.qty (some limit) now w).0) [
              | inl (order, r) ↦ rw (submit, e, r) (inr (d.qty, sold, le_refl _))
              | inr (x, r) ↦ rw (submit, e, r) (inr (d.qty, sold, le_refl _))
            ]
      ]

  pub replace_pending-SoldAtMost :
      (meta : Position F) (price : F) (d : ExitDecision F) (s : LifecycleState F) (w : W)
      → SoldAtMost ticker d.qty (log w) (log (replace_pending b now ticker meta price d s w).2)
  unfolding replace_pending
  replace_pending-SoldAtMost meta price d s w = elim (List-cases meta.pending_exits) [
    | inl e ↦ rw (replace_pending, e) (submit-SoldAtMost meta price d s w)
    | inr (id, ids, e) ↦
        let quiet = cancel_and_confirm-quiet b log h.quiet (id ∷ ids) w in
        let w' = (cancel_and_confirm b (id ∷ ids) w).1 in
        let meta' : Position F = record meta { pending_exits = [] } in
        elim (Outcome-cases (cancel_and_confirm b (id ∷ ids) w).0) [
          | inr (x, r) ↦ rw (replace_pending, e, r) (inl quiet)
          | inl (confirmed, r) ↦ elim (Bool-cases confirmed) [
            | inr c ↦ rw (replace_pending, e, r, c) (inl quiet)
            | inl c ↦
                let after = log (submit b now ticker meta' price d (put ticker meta' s) w').2 in
                let sold = submit-SoldAtMost meta' price d (put ticker meta' s) w' in
                rw (replace_pending, e, r, c)
                  (subst (λ l. SoldAtMost ticker d.qty l after) quiet sold)
          ]
        ]
  ]
