-- ===== src/Runtime/Suppressed.antt =====
-- A tick of runtime.py while the killswitch is active.
pub mod Observed
use squeeze_hunter.Prelude.{
  ◌≡◌, ◌∙◌, refl, sym, ap, inl, inr, Bool, true, false, ◌||◌, ◌&&◌, not, Option, none, some, List,
  [], ◌∷◌, Outcome, ok, is_some, Bool-cases, Option-cases, Outcome-cases, List-cases, map, ltb,
}
use mathlib.Core.Path.{subst}
use squeeze_hunter.Prelude.Dict.{Dict, keys}
use squeeze_hunter.Prelude.Floats.{Floats, nought}
use squeeze_hunter.Broker.{Ticker, Time}
use squeeze_hunter.Calendar.{is_regular_session}
use squeeze_hunter.Data.{Bar}
use squeeze_hunter.Execution.Book.{Position, Book}
use squeeze_hunter.Execution.Orders.{open_orders}
use squeeze_hunter.Execution.Lifecycle.{BrokerCalls, is_transient}
use squeeze_hunter.Execution.Lifecycle.Process.{price_of, manage_positions}
use squeeze_hunter.Execution.Reconcile.{reconcile_book}
use squeeze_hunter.Execution.Entries.{EntryPath, EntryCfg, execute_planned, window_open}
use squeeze_hunter.Execution.Entries.Settle.{settle_pending}
use squeeze_hunter.Execution.Buys.{IsBuyLog, settle_pending-quiet, reconcile_book-quiet}
use squeeze_hunter.Execution.Buys.Managed.{manage_positions-quiet}
use squeeze_hunter.Risk.Killswitch.{Transition}
use squeeze_hunter.Telemetry.{to_killswitch_inputs}
use squeeze_hunter.Runtime.{
  RuntimeContext, RuntimeSnapshot, ◌>>=◌, ◌>>◌, return, call, when, lift, or_transient, on_entries,
  on_lifecycle, entry_path,
}
use squeeze_hunter.Runtime.Rules.{
  Keeps, >>=-Keeps, >>=-then-Keeps, or_transient-Keeps, when-Keeps, if-Keeps,
}
use squeeze_hunter.Runtime.Services.{Services, RuntimeCfg, Alert, Occasion}
use squeeze_hunter.Runtime.Persist.{persist, notify, snapshot}
use squeeze_hunter.Runtime.Tick.{
  is_empty, reconciled, report_drift, reconcile_with_broker, note_health, check_health, mark_one,
  mark_all, mark_positions, mark_simulator, note_counts, note_equity, value_positions, after_health,
  observe, advance, alert_if_tripped, step_kill, evaluate_kill, enter_planned, clear_gone, trade,
  clamp, tick_body, tick,
}
use squeeze_hunter.Execution.Reconcile.{Drift}
use squeeze_hunter.Runtime.Suppressed.Observed.{
  execute_planned-suppressed, Same, persist-Same, notify-Same, observe-Same, IsBuyRecord,
}

module _ {F Stamp W L : Type 0} ⦃f : Floats F⦄ (svc : Services F Stamp W) (cfg : RuntimeCfg F)
    (log : W → L) (h : IsBuyRecord svc log) (bought : L) where
  -- Nothing more has been bought, and the switch is active.
  abbrev Off : RuntimeContext F → W → Type 0
  Off s w = (s.killswitch.active ≡ true) × (log w ≡ bought)

  enter_planned-Off : (now : Time) → Keeps Off (enter_planned svc cfg now)
  enter_planned-Off now s w (off, e) =
      let path = entry_path s in
      let dropped =
        execute_planned-suppressed svc.broker cfg.execution svc.simulated svc.fetch_bars now path
          w in
      (
        off,
        subst
            (λ active.
              log
                (execute_planned svc.broker cfg.execution svc.simulated svc.fetch_bars now active
                  path w).2
              ≡ bought)
            (sym off) (ap log dropped ∙ e),
      )

  trade-Off : (now : Time) → Keeps Off (trade svc cfg now)
  unfolding trade
  trade-Off now s₀ =
      >>=-Keeps Off (on_entries (settle_pending svc.broker cfg.execution now))
        (λ done.
          (enter_planned svc cfg now
            >> (on_lifecycle (manage_positions svc.broker now)
                >> clear_gone (keys s₀.lifecycle.positions))))
        (λ s w (off, e). (
          off,
          settle_pending-quiet svc.broker log h.orders cfg.execution now (entry_path s) w ∙ e,
        ))
        (λ done.
          >>=-Keeps Off (enter_planned svc cfg now)
            (λ done.
              (on_lifecycle (manage_positions svc.broker now)
                >> clear_gone (keys s₀.lifecycle.positions)))
            (enter_planned-Off now)
            (λ done.
              >>=-Keeps Off (on_lifecycle (manage_positions svc.broker now))
                (λ done. clear_gone (keys s₀.lifecycle.positions))
                (λ s w (off, e).
                  (off, manage_positions-quiet svc.broker log h.orders now s.lifecycle w ∙ e))
                (λ done s w e. e)))
        s₀

  evaluate_kill-Same : (now : Time) → Keeps (Same svc log h bought) (evaluate_kill svc cfg now)
  unfolding evaluate_kill advance
  evaluate_kill-Same now s₀ =
      >>=-Keeps (Same svc log h bought) (lift (to_killswitch_inputs svc.bdays now s₀.telemetry))
        (step_kill svc cfg now) (λ s w e. e)
        (λ inputs.
          >>=-Keeps (Same svc log h bought) (advance svc cfg inputs now) (alert_if_tripped svc now)
            (λ s w e. e) (alerted now))
        s₀
    where
      alerted :
          (now : Time) (transition : Option Transition)
          → Keeps (Same svc log h bought) (alert_if_tripped svc now transition)
      alerted now none s w e = e
      alerted now (some Transition.cleared) s w e = e
      alerted now (some Transition.tripped) s w e = notify-Same svc log h bought _ s w e

  tick_body-Same :
      (now : Time) (s : RuntimeContext F) (w : W)
      → Off s w
      → log (tick_body svc cfg now s w).2 ≡ bought
  unfolding tick_body
  tick_body-Same now s w off =
      >>=-then-Keeps Off (Same svc log h bought) (clamp svc now >> trade svc cfg now)
        (λ done. (observe svc now >> (evaluate_kill svc cfg now >> persist svc)))
        (λ t v o.
          (>>=-Keeps Off (clamp svc now) (λ done. trade svc cfg now) (λ t v o. o)
            (λ done. trade-Off now) t v o).1)
        (λ done.
          >>=-Keeps (Same svc log h bought) (observe svc now)
            (λ done. (evaluate_kill svc cfg now >> persist svc)) (observe-Same svc log h bought now)
            (λ done.
              >>=-Keeps (Same svc log h bought) (evaluate_kill svc cfg now) (λ done. persist svc)
                (evaluate_kill-Same now) (λ done. persist-Same svc log h bought)))
        s w off

module _ {F Stamp W L : Type 0} ⦃f : Floats F⦄ (svc : Services F Stamp W) (cfg : RuntimeCfg F)
    (log : W → L) (h : IsBuyRecord svc log) where
  -- From an active killswitch, and a log of the buy orders that no other call changes: a tick sends no
  -- buy order. That is so however the tick ends, also if the switch clears in it.
  pub tick-NoBuys :
      (now : Time) (s : RuntimeContext F) (w : W)
      → s.killswitch.active ≡ true
      → log (tick svc cfg now s w).2 ≡ log w
  unfolding tick
  tick-NoBuys now s w off = elim (Bool-cases (not s.has_broker || not (is_some s.metrics))) [
    | inl missing ↦ rw (tick, missing) refl
    | inr there ↦ elim (Bool-cases (not (is_regular_session svc.zone now) || s.tick_in_progress)) [
      | inl idle ↦ rw (tick, there, idle) refl
      | inr running ↦
          rw (tick, there, running)
            (tick_body-Same svc cfg log h (log w) now (record s { tick_in_progress = true }) w
              (off, refl))
    ]
  ]
