-- ===== src/Risk/Killswitch/Cooldown.antt =====
-- The sticky cooldown of risk/killswitch.py over whole runs of evaluations.
use squeeze_hunter.Prelude.{
  if◌then◌else◌, ℕ, ◌+◌, ◌*◌, ◌<◌, ◌≤◌, ◌≡◌, ◌↔◌, ◌⊎◌, true, false, none, some, List, [], ◌∷◌,
  is_some, All, arith,
}
use squeeze_hunter.Prelude.Floats.{Floats, ◌≼◌}
use squeeze_hunter.Broker.{Time}
use squeeze_hunter.Risk.Killswitch.{
  KillSwitchInputs, KillSwitchLimits, KillSwitchVerdict, KillswitchState, Transition, day,
  evaluate_killswitch, advance_killswitch,
}

-- The switch is active exactly while a first trip is on record, and then it has a reason.
pub record IsConsistent (s : KillswitchState) : Type 0 where
  pub window : s.active ≡ is_some s.first_tripped_at
  pub labelled : s.active ≡ is_some s.reason

-- A tripped verdict names its reason.
abbrev pub IsNamed : KillSwitchVerdict → Type 0
IsNamed v = v.tripped ≡ is_some v.reason

-- The verdicts of a run, each with the time of its evaluation, the oldest first.
pub run : KillswitchState → List (KillSwitchVerdict × Time) → ℕ → KillswitchState
run s [] cooldown = s
run s ((v, now) ∷ rest) cooldown = run (advance_killswitch s v now cooldown).0 rest cooldown

-- From a consistent state, with a verdict that has a reason exactly if it is bad, one step gives a
-- consistent state; it reports `tripped` exactly when the switch goes from
-- inactive to active and `cleared` exactly when it goes from active to inactive.
pub advance_killswitch-edges :
    (s : KillswitchState) (v : KillSwitchVerdict) (now : Time) (cooldown : ℕ)
    → IsConsistent s
    → IsNamed v
    → let (s', transition) = advance_killswitch s v now cooldown in
      IsConsistent s'
      × ((transition ≡ some Transition.tripped) ↔ ((s.active ≡ false) × (s'.active ≡ true)))
      × ((transition ≡ some Transition.cleared) ↔ ((s.active ≡ true) × (s'.active ≡ false)))
unfolding advance_killswitch
advance_killswitch-edges s v now cooldown h n = ground arith

-- In an active state with a first trip, whatever the verdicts, the switch stays active with that same first trip
-- through every run of evaluations inside the window of `cooldown` days.
pub run-stays_active :
    (s : KillswitchState) (trip : Time) (cooldown : ℕ) (steps : List (KillSwitchVerdict × Time))
    → s.active ≡ true
    → s.first_tripped_at ≡ some trip
    → All (λ step. step.1 < trip + cooldown * day) steps
    → ((run s steps cooldown).active ≡ true) × ((run s steps cooldown).first_tripped_at ≡ some trip)
unfolding run advance_killswitch
run-stays_active s trip cooldown [] a e h = (a, e)
run-stays_active s trip cooldown ((v, now) ∷ rest) a e h =
    let s' = (advance_killswitch s v now cooldown).0 in
    run-stays_active s' trip cooldown rest (ground arith) (ground arith) h.1

-- In an active state with a first trip, past the window of `cooldown` days, the switch follows the verdict: a bad one leaves an active switch active with the
-- same first trip, so no second window opens, and a good one clears it.
advance_killswitch-after_window :
    (s : KillswitchState) (v : KillSwitchVerdict) (trip now : Time) (cooldown : ℕ)
    → s.active ≡ true
    → s.first_tripped_at ≡ some trip
    → trip + cooldown * day ≤ now
    → let s' = (advance_killswitch s v now cooldown).0 in
      (s'.active ≡ v.tripped) × (s'.first_tripped_at ≡ (if v.tripped then some trip else none))
unfolding advance_killswitch
advance_killswitch-after_window s v trip now cooldown a e h = ground arith

module _ {F : Type 0} ⦃f : Floats F⦄ where
  -- The verdict trips exactly when one of the five limits is reached, and a tripped one has a reason.
  pub evaluate_killswitch_iff :
      (inp : KillSwitchInputs F) (lim : KillSwitchLimits F)
      → IsNamed (evaluate_killswitch inp lim)
        × (((evaluate_killswitch inp lim).tripped ≡ true) ↔ (
            (inp.rolling_30d_max_drawdown ≼ lim.monthly_drawdown_max)
            ⊎ ((inp.last_3_days_cumulative_pnl_pct ≼ lim.three_day_loss_max)
                ⊎ ((inp.worst_position_gap_pct ≼ lim.gap_through_stop_max)
                    ⊎ ((lim.broker_outage_max_seconds ≤ inp.broker_disconnected_for_seconds)
                        ⊎ (lim.data_stale_max_seconds ≤ inp.critical_data_stale_for_seconds))))))
  unfolding evaluate_killswitch
  evaluate_killswitch_iff inp lim = ground arith
