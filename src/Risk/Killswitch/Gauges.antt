-- ===== src/Risk/Killswitch/Gauges.antt =====
-- The gauges of risk/killswitch_controller.py show the labels of the current trip, and no other.
use squeeze_hunter.Prelude.{
  ◌≡◌, ◌↔◌, if◌then◌else◌, ◌||◌, get_or, refl, Bool, true, false, Option, none, some, List, [], ◌∷◌,
  is_some, arith,
}
use squeeze_hunter.Prelude.Floats.{Floats}
use squeeze_hunter.Broker.{Time}
use squeeze_hunter.Risk.Killswitch.{
  KillReason, KillSwitchInputs, KillswitchState, Transition, evaluate_killswitch,
  advance_killswitch,
}
use squeeze_hunter.Risk.Killswitch.Cooldown.{
  IsConsistent, advance_killswitch-edges, evaluate_killswitch_iff,
}
use squeeze_hunter.Risk.Killswitch.Controller.{
  Controller, KillswitchCfg, Gauges, listed, same_label, include, light, clear_gauges, show_state,
  adopt, set_gauge, set_all_inactive, prior_state, limits, evaluate, reset,
}

abbrev pub is_lit : Option Gauges → KillReason → Bool
is_lit none l = false
is_lit (some g) l = g l

abbrev is_empty : List KillReason → Bool
is_empty [] = true
is_empty (l ∷ ls) = false

-- A gauge is lit exactly if its label is among the active reasons, and an inactive switch has none.
pub record IsShown (c : Controller) (metrics : Option Gauges) : Type 0 where
  pub attached : is_some metrics ≡ true
  pub lit : (l : KillReason) → is_lit metrics l ≡ listed l c.active_reasons
  pub dark : (c.active || is_empty c.active_reasons) ≡ true

set_all_inactive_lem :
    (ls : List KillReason) (g : Gauges) (l : KillReason)
    → set_all_inactive ls g l ≡ (if listed l ls then false else g l)
set_all_inactive_lem [] g l = refl
set_all_inactive_lem (r ∷ ls) g l = ground (arith, set_all_inactive_lem ls (set_gauge r false g) l)

pub listed_congr :
    (a b : KillReason) (ls : List KillReason) → same_label a b ≡ true → listed a ls ≡ listed b ls
listed_congr a b [] h = refl
listed_congr a b (r ∷ ls) h = ground (arith, listed_congr a b ls h)

listed-include :
    (l r : KillReason) (ls : List KillReason)
    → listed l (include r ls) ≡ (same_label l r || listed l ls)
unfolding include
listed-include l r ls = ground (arith, listed_congr l r ls)

light-prior_state :
    (r : KillReason) (c : Controller) (metrics : Option Gauges)
    → prior_state (light r c metrics).0 ≡ prior_state c
unfolding light
light-prior_state r c none = refl
light-prior_state r c (some g) = refl

module _ (c : Controller) (g : Gauges)
    (h : (l : KillReason) → g l ≡ listed l c.active_reasons) where
  light-IsShown :
      (r : KillReason) → c.active ≡ true → IsShown (light r c (some g)).0 (light r c (some g)).1
  unfolding light
  light-IsShown r a = record {
    attached = refl;
    lit = λ l. ground (arith, listed-include l r c.active_reasons, h l);
    dark = ground arith;
  }

  clear_gauges-IsShown : IsShown (clear_gauges c (some g)).0 (clear_gauges c (some g)).1
  clear_gauges-IsShown = record {
    attached = refl;
    lit = λ l. ground (arith, set_all_inactive_lem c.active_reasons g l, h l);
    dark = ground arith;
  }

abbrev state_of : Bool → Option KillReason → Option Time → KillswitchState
state_of a r t = record { active = a; reason = r; first_tripped_at = t }

abbrev ShowsState : KillswitchState → Option Transition → Controller → Option Gauges → Type 0
ShowsState nxt transition c metrics =
    let (c', metrics') = show_state nxt transition (adopt nxt c) metrics in
    (prior_state c' ≡ nxt) × IsShown c' metrics'

-- The gauges follow a new state that comes of the old one by a step with that transition.
show_state_lem :
    (a : Bool) (r : Option KillReason) (t : Option Time) (transition : Option Transition)
    (c : Controller) (metrics : Option Gauges)
    → IsShown c metrics
    → ((transition ≡ some Transition.cleared) ↔ ((c.active ≡ true) × (a ≡ false)))
    → ShowsState (state_of a r t) transition c metrics
unfolding show_state
show_state_lem a r t transition c none h edge = absurd (ground (arith, h.attached))
show_state_lem true r t transition c (some g) h edge = (
  light-prior_state (get_or r KillReason.unknown) (adopt (state_of true r t) c) (some g),
  light-IsShown (adopt (state_of true r t) c) g h.lit (get_or r KillReason.unknown) refl,
)
show_state_lem false r t none c (some g) h edge =
    (refl, record { attached = refl; lit = h.lit; dark = ground (arith, h.dark, edge) })
show_state_lem false r t (some Transition.tripped) c (some g) h edge =
    (refl, record { attached = refl; lit = h.lit; dark = ground (arith, h.dark, edge) })
show_state_lem false r t (some Transition.cleared) c (some g) h edge =
    (refl, clear_gauges-IsShown (adopt (state_of false r t) c) g h.lit)

module _ {F : Type 0} ⦃f : Floats F⦄ where
  -- From a consistent state with a registry in step, an evaluation, whatever its inputs, keeps both:
  -- each gauge is lit exactly if its label is
  -- among the active reasons, and there are none once the switch is inactive, so every gauge is dark.
  pub evaluate-IsShown :
      (inputs : KillSwitchInputs F) (cfg : KillswitchCfg F) (now : Time) (c : Controller)
      (metrics : Option Gauges)
      → IsConsistent (prior_state c)
      → IsShown c metrics
      → let (_, c', metrics') = evaluate inputs cfg now c metrics in
        IsConsistent (prior_state c') × IsShown c' metrics'
  unfolding evaluate
  evaluate-IsShown inputs cfg now c metrics k h =
      let verdict = evaluate_killswitch inputs (limits cfg) in
      let step = advance_killswitch (prior_state c) verdict now c.cooldown_days in
      let named = (evaluate_killswitch_iff inputs (limits cfg)).0 in
      let edges = advance_killswitch-edges (prior_state c) verdict now c.cooldown_days k named in
      let (same, shown) =
        show_state_lem step.0.active step.0.reason step.0.first_tripped_at step.1 c metrics h
          edges.2 in
      (rw same edges.0, shown)

-- With a registry in step, a manual reset leaves the switch inactive with no reason, no window and every gauge dark.
reset-dark :
    (c : Controller) (metrics : Option Gauges)
    → IsShown c metrics
    → let (c', metrics') = reset c metrics in
      IsConsistent (prior_state c')
      × IsShown c' metrics'
      × (c'.active ≡ false)
      × ((l : KillReason) → is_lit metrics' l ≡ false)
unfolding reset
reset-dark c none h = absurd (ground (arith, h.attached))
reset-dark c (some g) h =
    let shown = clear_gauges-IsShown c g h.lit in
    (ground arith, record { attached = refl; lit = shown.lit; dark = refl }, refl, shown.lit)
