-- ===== src/Runtime/Tick.antt =====
-- The intraday tick of runtime.py. What a stage changed before it raised stays changed.
use squeeze_hunter.Prelude.{
  ℕ, Bool, true, false, not, ◌&&◌, ◌||◌, Option, none, some, List, [], ◌∷◌, ok, raised, contract,
  if◌then◌else◌, is_some, map, length,
}
use squeeze_hunter.Prelude.Dict.{Dict, insert, has, keys}
use squeeze_hunter.Prelude.Floats.{Floats, nought}
use squeeze_hunter.Broker.{Ticker, Time}
use squeeze_hunter.Calendar.{is_regular_session, session_open_utc}
use squeeze_hunter.Telemetry.{
  PortfolioTelemetry, Source, clear_position, record_position, record_broker_heartbeat,
  record_data_freshness, record_equity, clamp_freshness_to, to_killswitch_inputs,
}
use squeeze_hunter.Risk.Killswitch.{KillSwitchInputs, Transition}
use squeeze_hunter.Risk.Killswitch.Controller.{Gauges, evaluate}
use squeeze_hunter.Execution.Book.{Position, Book}
use squeeze_hunter.Execution.Orders.{open_orders}
use squeeze_hunter.Execution.Reconcile.{Drift, reconcile_book}
use squeeze_hunter.Execution.Lifecycle.{is_transient}
use squeeze_hunter.Execution.Lifecycle.Process.{manage_positions, price_of}
use squeeze_hunter.Execution.Entries.{execute_planned}
use squeeze_hunter.Execution.Entries.Settle.{settle_pending}
use squeeze_hunter.Runtime.{
  Registry, RuntimeContext, Job, ◌>>=◌, ◌>>◌, return, lift, get, modify, call, when, or_transient,
  safely, on_entries, on_lifecycle,
}
use squeeze_hunter.Runtime.Services.{Services, RuntimeCfg, Alert, Occasion}
use squeeze_hunter.Runtime.Persist.{persist, notify}

abbrev pub ibkr_quotes : Source
ibkr_quotes = 0

abbrev pub is_empty {ℓ} : {A : Type ℓ} → List A → Bool
is_empty [] = true
is_empty (x ∷ xs) = false

module _ {F : Type 0} where
  -- The telemetry of the positions that were there before and are not any more is cleared.
  abbrev pub clear_exited : List Ticker → Book F → PortfolioTelemetry F → PortfolioTelemetry F
  clear_exited [] book t = t
  clear_exited (x ∷ before) book t =
      clear_exited before book (if has x book then t else clear_position x t)

  abbrev pub gauges_of : Option (Registry F) → Option Gauges
  gauges_of none = none
  gauges_of (some m) = some m.kill

  abbrev pub with_gauges : Option Gauges → Option (Registry F) → Option (Registry F)
  with_gauges (some g) (some m) = some (record m { kill = g })
  with_gauges g m = m

  abbrev set_equity : F → Option (Registry F) → Option (Registry F)
  set_equity equity none = none
  set_equity equity (some m) = some (record m { equity = some equity })

  abbrev set_counts : ℕ → Bool → Option (Registry F) → Option (Registry F)
  set_counts n connected none = none
  set_counts n connected (some m) =
      some (record m { position_count = n; broker_connected = connected })

module _ {F W : Type 0} where
  abbrev pub clear_gone : List Ticker → Job F W (Unit {0})
  clear_gone before =
      modify λ s. record s { telemetry = clear_exited before s.lifecycle.positions s.telemetry }

module _ {F Stamp W : Type 0} ⦃f : Floats F⦄ (svc : Services F Stamp W) where
  -- The book and the telemetry as the reconciliation left them, also if it raised, and its drift.
  unfoldable pub reconciled : Bool → Job F W (List Drift)
  reconciled full s w =
      let skip = map (λ r. r.ticker) (open_orders s.pending) in
      let (done, r, w') = reconcile_book svc.broker full skip s.lifecycle.positions s.telemetry w in
      let s' = record s {
        lifecycle = record s.lifecycle { positions = r.book };
        telemetry = r.telemetry;
      } in
      elim done [ ok _ ↦ (ok r.drift, s', w') | raised e ↦ (raised e, s', w') ]

  abbrev pub report_drift : Bool → Occasion → List Drift → Job F W (Unit {0})
  report_drift full occasion drift =
      when (full && not (is_empty drift)) (notify svc (Alert.reconciled occasion drift))

  -- `_reconcile_with_broker`
  unfoldable pub reconcile_with_broker : Bool → Occasion → Job F W (Unit {0})
  reconcile_with_broker full occasion s w =
      if s.has_broker && not (svc.simulated && not (is_some svc.save))
      then (or_transient (reconciled full) [] >>= report_drift full occasion) s w
      else (ok tt, s, w)

  -- A healthy broker's heartbeat counts, and with no position its quotes count as fresh.
  abbrev pub note_health : Time → Bool → Job F W Bool
  note_health now healthy s w =
      let t = if healthy then record_broker_heartbeat now s.telemetry else s.telemetry in
      (
        ok healthy,
        record s {
          telemetry =
              if healthy && is_empty s.lifecycle.positions
              then record_data_freshness ibkr_quotes now t
              else t;
          last_broker_healthy = healthy;
        },
        w,
      )

  -- The broker's health, `False` if it cannot be asked.
  unfoldable pub check_health : Time → Job F W Bool
  check_health now = or_transient (call svc.health) false >>= note_health now

  abbrev pub note_mark : Time → Ticker → F → F → RuntimeContext F → RuntimeContext F
  note_mark now ticker entry price s = record s {
    telemetry =
        record_data_freshness ibkr_quotes now (record_position ticker entry price s.telemetry);
  }

  -- One position's quote; a quote that does not come, or has no price, marks nothing.
  unfoldable pub mark_one : Time → Ticker × Position F → Dict F → Job F W (Dict F)
  mark_one now (ticker, meta) marks s w =
      let (r, w') = svc.broker.fetch_quote ticker w in
      elim r [
        | raised e ↦ if is_transient e then (ok marks, s, w') else (raised e, s, w')
        | ok q ↦
            if f.lt nought (price_of q)
            then (
              ok (insert ticker (price_of q) marks),
              note_mark now ticker meta.entry_price (price_of q) s,
              w',
            )
            else (ok marks, s, w')
      ]

  unfoldable pub mark_all : Time → Book F → Dict F → Job F W (Dict F)
  mark_all now [] marks = return marks
  mark_all now (e ∷ book) marks = mark_one now e marks >>= λ marks'. mark_all now book marks'

  unfoldable pub mark_positions : Time → Bool → Job F W (Dict F)
  mark_positions now healthy s w =
      if healthy then mark_all now s.lifecycle.positions [] s w else (ok [], s, w)

  -- Only the simulator is marked.
  abbrev pub mark_simulator : Time → Dict F → Job F W (Unit {0})
  mark_simulator now marks s w =
      if svc.simulated then (ok tt, s, svc.mark_to_market marks now w) else (ok tt, s, w)

  abbrev with_equity : Time → Option F → RuntimeContext F → RuntimeContext F
  with_equity now none s = s
  with_equity now (some x) s = record s {
    telemetry = record_equity now x s.telemetry;
    metrics = set_equity x s.metrics;
  }

  abbrev pub note_counts : Time → Bool → Option F → Job F W (Unit {0})
  note_counts now healthy equity s w =
      let s' = with_equity now equity s in
      (
        ok tt,
        record s' { metrics = set_counts (length s'.lifecycle.positions) healthy s'.metrics },
        w,
      )

  -- The equity, in the telemetry and the registry.
  unfoldable pub note_equity : Time → Bool → Job F W (Unit {0})
  note_equity now healthy =
      or_transient (call svc.broker.get_equity_usd) none >>= note_counts now healthy

  -- The marks of the positions, and the equity with them.
  unfoldable pub value_positions : Time → Bool → Job F W (Unit {0})
  value_positions now healthy =
      mark_positions now healthy >>= λ marks. (mark_simulator now marks >> note_equity now healthy)

  -- The book is reconciled only with a healthy broker.
  abbrev pub after_health : Time → Bool → Job F W (Unit {0})
  after_health now healthy =
      when healthy (reconcile_with_broker false Occasion.tick) >> value_positions now healthy

  -- What is observed after the trades of a tick.
  unfoldable pub observe : Time → Job F W (Unit {0})
  observe now = check_health now >>= after_health now

  abbrev pub alert_if_tripped : Time → Option Transition → Job F W (Unit {0})
  alert_if_tripped now none = return tt
  alert_if_tripped now (some Transition.cleared) = return tt
  alert_if_tripped now (some Transition.tripped) =
      get (λ s. s.killswitch.reason) >>= λ reason. notify svc (Alert.killswitch_tripped reason now)

  -- Outages count from the open of today.
  abbrev pub clamp : Time → Job F W (Unit {0})
  clamp now =
      modify
        λ s. record s { telemetry = clamp_freshness_to (session_open_utc svc.zone now) s.telemetry }

module _ {F Stamp W : Type 0} ⦃f : Floats F⦄ (svc : Services F Stamp W) (cfg : RuntimeCfg F) where
  -- The killswitch and its gauges take a step.
  unfoldable pub advance : KillSwitchInputs F → Time → Job F W (Option Transition)
  advance inputs now s w =
      let (transition, c, g) =
        evaluate inputs cfg.killswitch now s.killswitch (gauges_of s.metrics) in
      (ok transition, record s { killswitch = c; metrics = with_gauges g s.metrics }, w)

  abbrev pub step_kill : Time → KillSwitchInputs F → Job F W (Unit {0})
  step_kill now inputs = advance inputs now >>= alert_if_tripped svc now

  -- The verdict on the telemetry, with an alert when the switch trips.
  unfoldable pub evaluate_kill : Time → Job F W (Unit {0})
  evaluate_kill now s w =
      (lift (to_killswitch_inputs svc.bdays now s.telemetry) >>= step_kill now) s w

  -- The orders of the tick: pending entries, planned entries, and the exits of the positions.
  abbrev pub enter_planned : Time → Job F W (Unit {0})
  enter_planned now s w =
      on_entries
        (execute_planned svc.broker cfg.execution svc.simulated svc.fetch_bars now
          s.killswitch.active)
        s w

  unfoldable pub trade : Time → Job F W (Unit {0})
  trade now s w =
      (on_entries (settle_pending svc.broker cfg.execution now)
          >> (enter_planned now
              >> (on_lifecycle (manage_positions svc.broker now)
                  >> clear_gone (keys s.lifecycle.positions))))
        s w

  -- `_tick_body`
  unfoldable pub tick_body : Time → Job F W (Unit {0})
  tick_body now =
      (clamp svc now >> trade now) >> (observe svc now >> (evaluate_kill now >> persist svc))

  -- `tick`: nothing outside the session, nor while another tick is running. The mark of the running
  -- tick is taken off also if it raises.
  unfoldable pub tick : Time → Job F W (Unit {0})
  tick now s w =
      if not s.has_broker || not (is_some s.metrics)
      then (raised contract, s, w)
      else if not (is_regular_session svc.zone now) || s.tick_in_progress
      then (ok tt, s, w)
      else (let (r, s', w') = tick_body now (record s { tick_in_progress = true }) w in
          (r, record s' { tick_in_progress = false }, w'))

  unfoldable pub tick_safe : Time → Job F W Bool
  tick_safe now = safely (tick now)
