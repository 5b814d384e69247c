-- ===== src/Risk/Killswitch.antt =====
-- risk/killswitch.py and risk/killswitch_controller.py: the verdict, the sticky cooldown and the
-- gauges that the controller keeps lit.
pub mod Cooldown
pub mod Controller
pub mod Gauges
pub mod Snapshot
use squeeze_hunter.Prelude.{
  ℕ, ◌+◌, ◌*◌, Bool, true, false, not, ◌||◌, Option, none, some, List, [], ◌∷◌, if◌then◌else◌, ltb,
  leb, ◌==◌, is_some, get_or, contains,
}
use squeeze_hunter.Prelude.Floats.{Floats}
use squeeze_hunter.Broker.{Time}

pub data KillReason : Type 0 where
  monthly_drawdown three_day_loss gap_through_stop broker_outage data_stale : KillReason
  cooldown unknown : KillReason

module _ (F : Type 0) where
  pub record KillSwitchInputs : Type 0 where
    pub as_of : Time
    pub rolling_30d_max_drawdown : F
    pub last_3_days_cumulative_pnl_pct : F
    pub worst_position_gap_pct : F
    pub broker_disconnected_for_seconds : ℕ
    pub critical_data_stale_for_seconds : ℕ

  -- The keyword arguments of `evaluate_killswitch`, as settings.risk holds them.
  pub record KillSwitchLimits : Type 0 where
    pub monthly_drawdown_max : F
    pub three_day_loss_max : F
    pub gap_through_stop_max : F
    pub broker_outage_max_seconds : ℕ
    pub data_stale_max_seconds : ℕ

pub record KillSwitchVerdict : Type 0 where
  pub tripped : Bool
  pub reason : Option KillReason

pub record KillswitchState : Type 0 where
  pub active : Bool
  pub reason : Option KillReason
  pub first_tripped_at : Option Time

pub data Transition : Type 0 where
  tripped cleared : Transition

abbrev tripped_by : KillReason → KillSwitchVerdict
tripped_by r = record { tripped = true; reason = some r }

module _ {F : Type 0} ⦃f : Floats F⦄ where
  unfoldable pub evaluate_killswitch : KillSwitchInputs F → KillSwitchLimits F → KillSwitchVerdict
  evaluate_killswitch inp lim =
      if f.le inp.rolling_30d_max_drawdown lim.monthly_drawdown_max
      then tripped_by KillReason.monthly_drawdown
      else if f.le inp.last_3_days_cumulative_pnl_pct lim.three_day_loss_max
      then tripped_by KillReason.three_day_loss
      else if f.le inp.worst_position_gap_pct lim.gap_through_stop_max
      then tripped_by KillReason.gap_through_stop
      else if leb lim.broker_outage_max_seconds inp.broker_disconnected_for_seconds
      then tripped_by KillReason.broker_outage
      else if leb lim.data_stale_max_seconds inp.critical_data_stale_for_seconds
      then tripped_by KillReason.data_stale
      else record { tripped = false; reason = none }

-- A day of microseconds.
abbrev pub day : ℕ
day = 86_400_000_000

abbrev clear_state : KillswitchState
clear_state = record { active = false; reason = none; first_tripped_at = none }

-- `first_tripped_at is not None and now < first_tripped_at + cooldown`
abbrev pub in_window : Option Time → Time → ℕ → Bool
in_window none now cooldown_days = false
in_window (some t) now cooldown_days = ltb now (t + cooldown_days * day)

unfoldable pub advance_killswitch :
    KillswitchState → KillSwitchVerdict → Time → ℕ → KillswitchState × Option Transition
advance_killswitch state verdict now cooldown_days =
    if in_window state.first_tripped_at now cooldown_days
    then (
      record {
        active = true;
        reason = some (get_or state.reason KillReason.cooldown);
        first_tripped_at = state.first_tripped_at;
      },
      none,
    )
    else if verdict.tripped
    then (if not state.active
        then (
          record { active = true; reason = verdict.reason; first_tripped_at = some now },
          some Transition.tripped,
        )
        else (
          record {
            active = true;
            reason = verdict.reason;
            first_tripped_at = state.first_tripped_at;
          },
          none,
        ))
    else if is_some state.first_tripped_at || state.active
    then (clear_state, some Transition.cleared)
    else (clear_state, none)
