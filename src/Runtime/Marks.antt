-- ===== src/Runtime/Marks.antt =====
-- The recorded marks through a tick of runtime.py.
pub mod Observed
use squeeze_hunter.Prelude.{
  ◌≡◌, ◌∙◌, refl, ap, inl, inr, Bool, true, false, ◌||◌, ◌&&◌, not, Option, none, some, List, [],
  ◌∷◌, ok, IfOk, is_some, contains, arith, Bool-cases, Option-cases, Outcome-cases, map,
  if◌then◌else◌, ◌==◌,
}
use squeeze_hunter.Prelude.Dict.{Dict, has, keys}
use squeeze_hunter.Prelude.Floats.{Floats, nought}
use squeeze_hunter.Broker.{Ticker, Time}
use squeeze_hunter.Calendar.{is_regular_session}
use squeeze_hunter.Telemetry.{
  PortfolioTelemetry, clamp_freshness_to, record_equity, clear_position, to_killswitch_inputs,
  record_broker_heartbeat, record_data_freshness,
}
use squeeze_hunter.Telemetry.Marks.{
  Covers, Covers-mono, clear_position-Covers, record_position-member,
}
use squeeze_hunter.Risk.Killswitch.{Transition}
use squeeze_hunter.Execution.Book.{Position, Book}
use squeeze_hunter.Execution.Orders.{open_orders}
use squeeze_hunter.Execution.Lifecycle.{is_transient}
use squeeze_hunter.Execution.Lifecycle.Process.{price_of, manage_positions}
use squeeze_hunter.Execution.Reconcile.{reconcile_book}
use squeeze_hunter.Execution.Reconcile.Marks.{held_in, reconcile_book-Covers}
use squeeze_hunter.Execution.Entries.Settle.{settle_pending}
use squeeze_hunter.Execution.Entries.Marks.{settle_pending-Marked}
use squeeze_hunter.Execution.Entries.Entered.{execute_planned-Marked}
use squeeze_hunter.Runtime.{
  RuntimeContext, Job, ◌>>=◌, ◌>>◌, return, call, when, lift, or_transient, on_entries,
  on_lifecycle, entry_path,
}
use squeeze_hunter.Runtime.Rules.{
  Keeps, Gives, >>=-Keeps, >>=-Gives, Keeps-Gives, or_transient-Keeps, when-Keeps, if-Keeps,
}
use squeeze_hunter.Runtime.Services.{Services, RuntimeCfg, Alert, Occasion}
use squeeze_hunter.Runtime.Persist.{persist, notify, snapshot}
use squeeze_hunter.Runtime.Tick.{
  ibkr_quotes, is_empty, clear_exited, reconciled, report_drift, reconcile_with_broker, note_health,
  check_health, mark_one, mark_all, mark_positions, mark_simulator, note_counts, note_equity,
  value_positions, after_health, observe, advance, alert_if_tripped, step_kill, evaluate_kill,
  enter_planned, clear_gone, trade, clamp, tick_body, tick,
}
use squeeze_hunter.Runtime.Marks.Observed.{
  listed_or_held, contains-keys, clear_exited-Covers, Held, persist-Held, notify-Held, observe-Held,
  AreMarksHeld,
}

module _ {F Stamp W : Type 0} ⦃f : Floats F⦄ (svc : Services F Stamp W) (cfg : RuntimeCfg F) where
  evaluate_kill-Held : (now : Time) → Keeps (Held svc) (evaluate_kill svc cfg now)
  unfolding evaluate_kill advance
  evaluate_kill-Held now s₀ =
      >>=-Keeps (Held svc) (lift (to_killswitch_inputs svc.bdays now s₀.telemetry))
        (step_kill svc cfg now) (λ s w h. h)
        (λ inputs.
          >>=-Keeps (Held svc) (advance svc cfg inputs now) (alert_if_tripped svc now) (λ s w h. h)
            (alerted now))
        s₀
    where
      alerted :
          (now : Time) (transition : Option Transition)
          → Keeps (Held svc) (alert_if_tripped svc now transition)
      alerted now none s w h = h
      alerted now (some Transition.cleared) s w h = h
      alerted now (some Transition.tripped) s w h = notify-Held svc _ s w h

  -- The positions of before the trades cover the marks until those of the exited ones are cleared.
  abbrev BeforeIn : Book F → RuntimeContext F → W → Type 0
  BeforeIn book s w = Covers (held_in book) s.telemetry

  clear_gone-Held :
      (book : Book F) → Gives (BeforeIn book) (clear_gone (keys book)) (λ done. Held svc)
  clear_gone-Held book s w h = clear_exited-Covers (keys book) s.lifecycle.positions s.telemetry (
      Covers-mono (held_in book) (listed_or_held (keys book) s.lifecycle.positions) s.telemetry
        (λ j held. rw (contains-keys j book, held) refl) h)

  trade-Held : (now : Time) → Gives (Held svc) (trade svc cfg now) (λ done. Held svc)
  unfolding trade
  trade-Held now s₀ w₀ h₀ =
      let book = s₀.lifecycle.positions in
      let managed : Job F W (Unit {0}) =
        on_lifecycle (manage_positions svc.broker now) >> clear_gone (keys book) in
      >>=-Gives (BeforeIn book) (on_entries (settle_pending svc.broker cfg.execution now))
        (λ done. (enter_planned svc cfg now >> managed)) (λ done. BeforeIn book) (λ done. Held svc)
        (Keeps-Gives (BeforeIn book) (on_entries (settle_pending svc.broker cfg.execution now))
          (λ s w h.
            settle_pending-Marked svc.broker cfg.execution now (held_in book) (entry_path s) w h))
        (λ done.
          >>=-Gives (BeforeIn book) (enter_planned svc cfg now) (λ done. managed)
            (λ done. BeforeIn book) (λ done. Held svc)
            (Keeps-Gives (BeforeIn book) (enter_planned svc cfg now) (λ s w h.
              execute_planned-Marked svc.broker cfg.execution svc.simulated svc.fetch_bars now
                (held_in book) s.killswitch.active (entry_path s) w h))
            (λ done.
              >>=-Gives (BeforeIn book) (on_lifecycle (manage_positions svc.broker now))
                (λ done. clear_gone (keys book)) (λ done. BeforeIn book) (λ done. Held svc)
                (Keeps-Gives (BeforeIn book) (on_lifecycle (manage_positions svc.broker now))
                  (λ s w h. h))
                (λ done. clear_gone-Held book)))
        s₀ w₀ h₀

  tick_body-Held : (now : Time) → Gives (Held svc) (tick_body svc cfg now) (λ done. Held svc)
  unfolding tick_body clamp_freshness_to
  tick_body-Held now =
      >>=-Gives (Held svc) (clamp svc now >> trade svc cfg now)
        (λ done. (observe svc now >> (evaluate_kill svc cfg now >> persist svc))) (λ done. Held svc)
        (λ done. Held svc)
        (>>=-Gives (Held svc) (clamp svc now) (λ done. trade svc cfg now) (λ done. Held svc)
          (λ done. Held svc) (λ s w h. h) (λ done. trade-Held now))
        (λ done.
          Keeps-Gives (Held svc) (observe svc now >> (evaluate_kill svc cfg now >> persist svc)) (
            >>=-Keeps (Held svc) (observe svc now)
              (λ done. (evaluate_kill svc cfg now >> persist svc)) (observe-Held svc now)
              (λ done.
                >>=-Keeps (Held svc) (evaluate_kill svc cfg now) (λ done. persist svc)
                  (evaluate_kill-Held now) (λ done. persist-Held svc))))

  -- Where no ticker outside the book has a mark that shows a gap, none has after a tick that returns.
  pub tick-AreMarksHeld :
      (now : Time) (s : RuntimeContext F) (w : W)
      → AreMarksHeld s
      → IfOk (λ done. AreMarksHeld (tick svc cfg now s w).1) (tick svc cfg now s w).0
  unfolding tick
  tick-AreMarksHeld now s w h = elim (Bool-cases (not s.has_broker || not (is_some s.metrics))) [
    | inl missing ↦ rw (tick, missing) tt
    | inr there ↦ elim (Bool-cases (not (is_regular_session svc.zone now) || s.tick_in_progress)) [
      | inl idle ↦ rw (tick, there, idle) h
      | inr running ↦
          rw (tick, there, running) (tick_body-Held now (record s { tick_in_progress = true }) w h)
    ]
  ]
