-- ===== src/Runtime/Setup.antt =====
-- The start and the end of runtime.py.
use squeeze_hunter.Prelude.{
  Bool, true, false, not, Option, none, some, Outcome, ok, raised, transient, value_error,
  if◌then◌else◌,
}
use squeeze_hunter.Prelude.Floats.{Floats}
use squeeze_hunter.Broker.{Time}
use squeeze_hunter.Telemetry.{record_broker_heartbeat, record_data_freshness}
use squeeze_hunter.Risk.Stops.{StopParams}
use squeeze_hunter.Execution.Lifecycle.{is_transient}
use squeeze_hunter.Execution.Entries.Settle.{settle_pending}
use squeeze_hunter.Runtime.{
  Registry, RuntimeContext, RuntimeSnapshot, Job, ◌>>=◌, ◌>>◌, return, lift, modify, call, when,
  or_transient, on_entries,
}
use squeeze_hunter.Runtime.Services.{Services, RuntimeCfg, Occasion}
use squeeze_hunter.Runtime.Persist.{persist, restore_from}
use squeeze_hunter.Runtime.Tick.{ibkr_quotes, reconcile_with_broker}

pub data Mode : Type 0 where
  sim paper live unknown : Mode

-- What only the start calls. `connect` gives `false` when its time runs out, `port_named` says that
-- `require_live_port` accepts the environment, and `clock` is `datetime.now(UTC)`.
pub record Startup (W : Type 0) : Type 0 where
  pub mode : Mode
  pub port_named : W → Bool
  pub connect : W → Outcome Bool × W
  pub disconnect : W → Outcome (Unit {0}) × W
  pub clock : W → Time × W

module _ {F : Type 0} ⦃f : Floats F⦄ where
  -- The thresholds of the settings, the trailing ones as magnitudes.
  abbrev magnitudes : StopParams F → StopParams F
  magnitudes p = record p {
    trailing_car = f.abs p.trailing_car;
    trailing_gme = f.abs p.trailing_gme;
    trailing_mixed = f.abs p.trailing_mixed;
  }

  abbrev apply_settings : RuntimeCfg F → RuntimeContext F → RuntimeContext F
  apply_settings cfg s = record s {
    lifecycle = record s.lifecycle { params = magnitudes cfg.stops };
    killswitch = record s.killswitch { cooldown_days = cfg.cooldown_days };
  }

  -- `MetricsRegistry()`
  abbrev fresh_registry : Registry F
  fresh_registry = record {
    kill = λ r. false;
    equity = none;
    position_count = 0;
    broker_connected = false;
  }

abbrev caught : Outcome (Unit {0}) → Outcome (Unit {0})
caught (ok done) = ok done
caught (raised e) = if is_transient e then ok tt else raised e

module _ {F W : Type 0} (start : Startup W) where
  -- `_try_cleanup_partial_broker`: the broker is given up, whatever its disconnect does. The
  -- RuntimeError of a closed loop, which is caught too, counts as `transient`.
  abbrev clean_up : Job F W (Unit {0})
  clean_up s w = let (r, w') = start.disconnect w in (caught r, record s { has_broker = false }, w')

  abbrev set_broker : Job F W (Unit {0})
  set_broker = modify λ s. record s { has_broker = true }

  -- A connection that takes too long is cleaned up, and TimeoutError goes on to the caller.
  abbrev connect_in_time : Job F W (Unit {0})
  connect_in_time = do
    set_broker
    connected ← call start.connect
    when (not connected) (clean_up >> lift (raised transient))

  -- The broker of the mode, if none was given.
  unfoldable pub make_broker : Job F W (Unit {0})
  make_broker s w = if s.has_broker then (ok tt, s, w) else elim start.mode [
    | Mode.sim ↦ set_broker s w
    | Mode.paper ↦ connect_in_time s w
    | Mode.live ↦ if start.port_named w then connect_in_time s w else (raised value_error, s, w)
    | Mode.unknown ↦ (raised value_error, s, w)
  ]

  -- The heartbeat and the quotes count from now.
  abbrev seed_freshness : Job F W (Unit {0})
  seed_freshness s w =
      let (t, w') = start.clock w in
      let (t', w'') = start.clock w' in
      (
        ok tt,
        record s {
          telemetry = record_data_freshness ibkr_quotes t' (record_broker_heartbeat t s.telemetry);
        },
        w'',
      )

module _ {F Stamp W : Type 0} ⦃f : Floats F⦄ (svc : Services F Stamp W) (cfg : RuntimeCfg F)
    (start : Startup W) where
  -- They are seeded by a broker that is connected, and also by one that cannot be asked.
  abbrev seed_if_up : Job F W (Unit {0})
  seed_if_up = do up ← or_transient (call svc.health) true; when up (seed_freshness start)

  abbrev restore_if_saved : Option (RuntimeSnapshot F Stamp) → Job F W (Unit {0})
  restore_if_saved none = return tt
  restore_if_saved (some snap) = restore_from svc snap

  abbrev load_state : Job F W (Unit {0})
  load_state = elim svc.save [
    | none ↦ return tt
    | some save ↦ (call svc.load >>= λ snap. restore_if_saved snap)
  ]

  -- `setup`: fills that came in while the daemon was down become positions before the book is
  -- reconciled. The alert channel and the monitor's server are left out.
  unfoldable pub setup : Time → Job F W (Unit {0})
  setup now = do
    modify (apply_settings cfg)
    make_broker start
    modify λ s. record s { metrics = some fresh_registry }
    seed_if_up
    load_state
    on_entries (settle_pending svc.broker cfg.execution now)
    reconcile_with_broker svc true Occasion.startup
    persist svc

  -- `shutdown`, without the monitor's server.
  unfoldable pub shutdown : Job F W (Unit {0})
  shutdown s w = (persist svc >> when s.has_broker (call start.disconnect)) s w
