-- ===== src/Risk/Killswitch/Controller.antt =====
-- risk/killswitch_controller.py: the killswitch with its gauges. A registry holds one gauge for each
-- reason label, at 1.0 (lit) or 0.0; the call may have no registry.
use squeeze_hunter.Prelude.{
  ℕ, Bool, true, false, ◌||◌, Option, none, some, List, [], ◌∷◌, if◌then◌else◌, ◌==◌, get_or,
}
use squeeze_hunter.Prelude.Floats.{Floats}
use squeeze_hunter.Broker.{Time}
use squeeze_hunter.Risk.Killswitch.{
  KillReason, KillSwitchInputs, KillSwitchLimits, KillswitchState, Transition, evaluate_killswitch,
  advance_killswitch,
}

abbrev index : KillReason → ℕ
index KillReason.monthly_drawdown = 0
index KillReason.three_day_loss = 1
index KillReason.gap_through_stop = 2
index KillReason.broker_outage = 3
index KillReason.data_stale = 4
index KillReason.cooldown = 5
index KillReason.unknown = 6

-- Equality of two labels.
abbrev pub same_label : KillReason → KillReason → Bool
same_label a b = index a == index b

-- `label in labels`
abbrev pub listed : KillReason → List KillReason → Bool
listed l [] = false
listed l (r ∷ rs) = same_label l r || listed l rs

-- `set.add`
unfoldable pub include : KillReason → List KillReason → List KillReason
include l ls = if listed l ls then ls else l ∷ ls

abbrev pub Gauges : Type 0
Gauges = KillReason → Bool

abbrev pub set_gauge : KillReason → Bool → Gauges → Gauges
set_gauge l value g r = if same_label r l then value else g r

abbrev pub set_all_inactive : List KillReason → Gauges → Gauges
set_all_inactive [] g = g
set_all_inactive (l ∷ ls) g = set_all_inactive ls (set_gauge l false g)

pub record Controller : Type 0 where
  pub cooldown_days : ℕ
  pub active : Bool
  pub reason : Option KillReason
  pub first_tripped_at : Option Time
  pub active_reasons : List KillReason

-- What settings.risk says of the killswitch; the drawdown is stored as a positive magnitude.
pub record KillswitchCfg (F : Type 0) : Type 0 where
  pub monthly_drawdown_kill : F
  pub three_day_loss_max : F
  pub gap_through_stop_max : F
  pub broker_outage_max_seconds : ℕ
  pub data_stale_max_seconds : ℕ

abbrev pub clear_metrics : Controller → Option Gauges → Option Gauges
clear_metrics c none = none
clear_metrics c (some g) = some (set_all_inactive c.active_reasons g)

-- `_clear_gauges`
abbrev pub clear_gauges : Controller → Option Gauges → Controller × Option Gauges
clear_gauges c metrics = (record c { active_reasons = [] }, clear_metrics c metrics)

unfoldable pub light : KillReason → Controller → Option Gauges → Controller × Option Gauges
unfolding include
light l c none = (c, none)
light l c (some g) =
    (record c { active_reasons = include l c.active_reasons }, some (set_gauge l true g))

-- The gauges after a step, by the new state and the transition.
unfoldable pub show_state :
    KillswitchState → Option Transition → Controller → Option Gauges → Controller × Option Gauges
unfolding light
show_state nxt transition c metrics =
    if nxt.active then light (get_or nxt.reason KillReason.unknown) c metrics else elim transition [
      | none ↦ (c, metrics)
      | some t ↦ elim t [
        | Transition.tripped ↦ (c, metrics)
        | Transition.cleared ↦ clear_gauges c metrics
      ]
    ]

abbrev pub adopt : KillswitchState → Controller → Controller
adopt nxt c = record c {
  active = nxt.active;
  reason = nxt.reason;
  first_tripped_at = nxt.first_tripped_at;
}

abbrev pub prior_state : Controller → KillswitchState
prior_state c = record {
  active = c.active;
  reason = c.reason;
  first_tripped_at = c.first_tripped_at;
}

module _ {F : Type 0} ⦃f : Floats F⦄ where
  pub limits : KillswitchCfg F → KillSwitchLimits F
  limits cfg = record {
    monthly_drawdown_max = f.neg (f.abs cfg.monthly_drawdown_kill);
    three_day_loss_max = cfg.three_day_loss_max;
    gap_through_stop_max = cfg.gap_through_stop_max;
    broker_outage_max_seconds = cfg.broker_outage_max_seconds;
    data_stale_max_seconds = cfg.data_stale_max_seconds;
  }

  unfoldable pub evaluate :
      KillSwitchInputs F
      → KillswitchCfg F
      → Time
      → Controller
      → Option Gauges
      → Option Transition × Controller × Option Gauges
  evaluate inputs cfg now self metrics =
      let verdict = evaluate_killswitch inputs (limits cfg) in
      let (nxt, transition) =
        advance_killswitch (prior_state self) verdict now self.cooldown_days in
      let (self', metrics') = show_state nxt transition (adopt nxt self) metrics in
      (transition, self', metrics')

unfoldable pub reset : Controller → Option Gauges → Controller × Option Gauges
reset self metrics =
    let (c, metrics') = clear_gauges self metrics in
    (record c { first_tripped_at = none; active = false; reason = none }, metrics')
