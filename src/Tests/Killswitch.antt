-- ===== src/Tests/Killswitch.antt =====
-- risk/killswitch.py and risk/killswitch_controller.py at concrete inputs.
use squeeze_hunter.Prelude.{ok, ◌≡◌, ◌↔◌, refl, true, false, none, some, [], ◌∷◌, arith}
use squeeze_hunter.Prelude.Floats.{nought}
use squeeze_hunter.Prelude.Fixed.{Fixed, fixed_floats}
use squeeze_hunter.Broker.{Time}
use squeeze_hunter.Execution.Orders.Snapshot.{IsoFormat}
use squeeze_hunter.Risk.Killswitch.Snapshot.{to_snapshot, restore, restore-to_snapshot}
use squeeze_hunter.Risk.Killswitch.{
  KillReason, KillSwitchInputs, KillSwitchLimits, KillSwitchVerdict, KillswitchState, Transition,
  advance_killswitch,
}
use squeeze_hunter.Risk.Killswitch.Cooldown.{
  IsConsistent, run, advance_killswitch-edges, run-stays_active,
}
use squeeze_hunter.Risk.Killswitch.Controller.{
  Controller, Gauges, KillswitchCfg, listed, prior_state, evaluate,
}
use squeeze_hunter.Risk.Killswitch.Gauges.{IsShown, evaluate-IsShown}

abbrev bad : KillSwitchVerdict
bad = record { tripped = true; reason = some KillReason.three_day_loss }

abbrev good : KillSwitchVerdict
good = record { tripped = false; reason = none }

abbrev calm : KillswitchState
calm = record { active = false; reason = none; first_tripped_at = none }

abbrev on_trip : KillswitchState
on_trip = record {
  active = true;
  reason = some KillReason.three_day_loss;
  first_tripped_at = some 5;
}

calm-IsConsistent : IsConsistent calm
calm-IsConsistent = record { window = refl; labelled = refl }

advance_killswitch-edges_example :
    let (s', transition) = advance_killswitch calm bad 5 5 in
    IsConsistent s'
    × ((transition ≡ some Transition.tripped) ↔ ((calm.active ≡ false) × (s'.active ≡ true)))
    × ((transition ≡ some Transition.cleared) ↔ ((calm.active ≡ true) × (s'.active ≡ false)))
advance_killswitch-edges_example = advance_killswitch-edges calm bad 5 5 calm-IsConsistent refl

run-stays_active_example :
    ((run on_trip ((good, 6) ∷ (bad, 7) ∷ []) 5).active ≡ true)
    × ((run on_trip ((good, 6) ∷ (bad, 7) ∷ []) 5).first_tripped_at ≡ some 5)
run-stays_active_example =
    run-stays_active on_trip 5 5 ((good, 6) ∷ (bad, 7) ∷ []) refl refl (ground arith)

abbrev inputs : KillSwitchInputs Fixed
inputs = record {
  as_of = 5;
  rolling_30d_max_drawdown = fixed_floats.neg (fixed_floats.dec 5 2);
  last_3_days_cumulative_pnl_pct = fixed_floats.neg (fixed_floats.dec 11 2);
  worst_position_gap_pct = nought;
  broker_disconnected_for_seconds = 0;
  critical_data_stale_for_seconds = 0;
}

abbrev pub kill_cfg : KillswitchCfg Fixed
kill_cfg = record {
  monthly_drawdown_kill = fixed_floats.dec 25 2;
  three_day_loss_max = fixed_floats.neg (fixed_floats.dec 10 2);
  gap_through_stop_max = fixed_floats.neg (fixed_floats.dec 30 2);
  broker_outage_max_seconds = 600;
  data_stale_max_seconds = 3600;
}

abbrev bounds : KillSwitchLimits Fixed
bounds = record {
  monthly_drawdown_max = fixed_floats.neg (fixed_floats.dec 25 2);
  three_day_loss_max = fixed_floats.neg (fixed_floats.dec 10 2);
  gap_through_stop_max = fixed_floats.neg (fixed_floats.dec 30 2);
  broker_outage_max_seconds = 600;
  data_stale_max_seconds = 3600;
}

abbrev controller : Controller
controller = record {
  cooldown_days = 5;
  active = false;
  reason = none;
  first_tripped_at = none;
  active_reasons = [];
}

abbrev dark_gauges : Gauges
dark_gauges r = false

controller-IsShown : IsShown controller (some dark_gauges)
controller-IsShown = record { attached = refl; lit = λ l. refl; dark = refl }

evaluate-IsShown_example :
    let (_, c', metrics') = evaluate inputs kill_cfg 5 controller (some dark_gauges) in
    IsConsistent (prior_state c') × IsShown c' metrics'
evaluate-IsShown_example =
    evaluate-IsShown inputs kill_cfg 5 controller (some dark_gauges) calm-IsConsistent
      controller-IsShown

abbrev pub lit_controller : Controller
lit_controller = record controller {
  active = true;
  reason = some KillReason.three_day_loss;
  first_tripped_at = some 5;
  active_reasons = KillReason.three_day_loss ∷ [];
}

abbrev pub lit_gauges : Gauges
lit_gauges l = listed l (KillReason.three_day_loss ∷ [])

lit_controller-IsShown : IsShown lit_controller (some lit_gauges)
lit_controller-IsShown = record { attached = refl; lit = λ l. refl; dark = refl }

-- Stamps that are the times themselves.
abbrev plain : IsoFormat Time
plain = record { isoformat = λ t. t; fromisoformat = ok; read_back = λ t. refl }

restore-to_snapshot_example :
    let (r, c') = restore plain (to_snapshot plain lit_controller) controller in
    (r ≡ ok tt)
    × (prior_state c' ≡ prior_state lit_controller)
    × ((l : KillReason) → listed l c'.active_reasons ≡ listed l lit_controller.active_reasons)
restore-to_snapshot_example = restore-to_snapshot plain lit_controller controller
