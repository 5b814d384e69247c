-- ===== src/Risk/Stops.antt =====
-- risk/stops.py: the layered stops of one position at one price.
pub mod Soundness
pub mod Priority
use squeeze_hunter.Prelude.{
  ℕ, ◌≡◌, Bool, true, false, not, ◌&&◌, Option, none, some, Outcome, ok, ◌>>=◌, if◌then◌else◌, leb,
}
use squeeze_hunter.Prelude.Floats.{Floats, nought, divide}
use squeeze_hunter.Setup.{Setup}

pub data Action : Type 0 where
  hold halve exit : Action

pub data StopReason : Type 0 where
  hard_stop trailing_stop time_stop signal_decay_75 signal_decay_50 : StopReason

pub record StopSignal : Type 0 where
  pub action : Action
  pub reason : Option StopReason

module _ (F : Type 0) where
  pub record StopState : Type 0 where
    pub entry_price : F
    pub peak_price : F
    pub current_score : F
    pub entry_score : F
    pub bars_held : ℕ
    pub setup_type : Setup
    pub halved : Bool

  -- The keyword arguments of `evaluate_stops`; also `StopParams` of execution/decisions.py.
  pub record StopParams : Type 0 where
    pub hard_stop : F
    pub time_stop_bars : ℕ
    pub signal_decay_halve : F
    pub signal_decay_exit : F
    pub trailing_car : F
    pub trailing_gme : F
    pub trailing_mixed : F

abbrev pub signal : Action → StopReason → StopSignal
signal a r = record { action = a; reason = some r }

abbrev pub holding : StopSignal
holding = record { action = Action.hold; reason = none }

-- `sig.reason in _PRICE_TRIGGERED` of execution/decisions.py
abbrev pub price_triggered : StopSignal → Bool
price_triggered s = elim s.reason [
  | none ↦ false
  | some r ↦ elim r [ StopReason.hard_stop ↦ true | StopReason.trailing_stop ↦ true | _ ↦ false ]
]

module _ {F : Type 0} ⦃f : Floats F⦄ where
  -- Any setup but CAR and GME gets the Mixed distance.
  abbrev pub trailing_for : Setup → StopParams F → F
  trailing_for Setup.car p = p.trailing_car
  trailing_for Setup.gme p = p.trailing_gme
  trailing_for _ p = p.trailing_mixed

  unfoldable pub decay_arm : StopState F → StopParams F → Outcome StopSignal
  decay_arm st p =
      if f.lt nought st.entry_score
      then (do
        decay ← divide (f.sub st.entry_score st.current_score) st.entry_score
        ok (
            if f.le p.signal_decay_exit decay
            then signal Action.exit StopReason.signal_decay_75
            else if f.le p.signal_decay_halve decay && not st.halved
            then signal Action.halve StopReason.signal_decay_50
            else holding))
      else ok holding

  unfoldable pub time_arm : StopState F → StopParams F → Outcome StopSignal
  time_arm st p =
      if leb p.time_stop_bars st.bars_held
      then ok (signal Action.exit StopReason.time_stop)
      else decay_arm st p

  unfoldable pub trailing_arm : StopState F → F → StopParams F → Outcome StopSignal
  trailing_arm st price p =
      if f.lt st.entry_price st.peak_price
      then (do
        from_peak ← divide (f.sub price st.peak_price) st.peak_price
        if f.le from_peak (f.neg (trailing_for st.setup_type p))
            then ok (signal Action.exit StopReason.trailing_stop)
            else time_arm st p)
      else time_arm st p

  unfoldable pub evaluate_stops : StopState F → F → StopParams F → Outcome StopSignal
  evaluate_stops st price p = do
    pnl_pct ← divide (f.sub price st.entry_price) st.entry_price
    if f.le pnl_pct p.hard_stop
        then ok (signal Action.exit StopReason.hard_stop)
        else trailing_arm st price p
