-- ===== src/Execution/Decisions.antt =====
-- execution/decisions.py, exits: what to do with one open position given one mark.
pub mod Exits
use squeeze_hunter.Prelude.{
  ℕ, ◌/◌, Bool, true, false, Option, none, some, Outcome, ok, ◌>>=◌, if◌then◌else◌, ◌==◌,
}
use squeeze_hunter.Prelude.Floats.{Floats, fmax}
use squeeze_hunter.Setup.{Setup}
use squeeze_hunter.Risk.Stops.{
  Action, StopReason, StopSignal, StopState, StopParams, price_triggered, evaluate_stops,
}
use squeeze_hunter.Data.{Bar}
use squeeze_hunter.Execution.Book.{Position}

module _ (F : Type 0) where
  pub record MarkSnapshot : Type 0 where
    pub eval_price : F
    pub peak_before : F
    pub peak_after : F
    pub fill_on_price_stop : F
    pub fill_on_other_stop : F

  pub record ExitDecision : Type 0 where
    pub action : Action
    pub reason : Option StopReason
    pub qty : ℕ
    pub fill_reference : F
    pub price_triggered : Bool
    pub new_peak : F
    pub halved : Bool

  -- The thresholds of settings.stops; the trailing ones are negative there.
  pub record StopsCfg : Type 0 where
    pub hard_stop : F
    pub time_stop_days : ℕ
    pub signal_decay_halve : F
    pub signal_decay_exit : F
    pub trailing_car : F
    pub trailing_gme : F
    pub trailing_mixed : F

module _ {F : Type 0} where
  unfoldable pub from_quote : F → MarkSnapshot F
  from_quote price = record {
    eval_price = price;
    peak_before = price;
    peak_after = price;
    fill_on_price_stop = price;
    fill_on_other_stop = price;
  }

  unfoldable pub from_bar : Bar F → MarkSnapshot F
  from_bar bar = record {
    eval_price = bar.low;
    peak_before = bar.open_price;
    peak_after = bar.close;
    fill_on_price_stop = bar.low;
    fill_on_other_stop = bar.close;
  }

  unfoldable pub apply_exit_decision : Position F → ExitDecision F → Position F
  apply_exit_decision meta d = record meta { peak_price = d.new_peak; halved = d.halved }

module _ {F : Type 0} ⦃f : Floats F⦄ where
  pub from_settings : StopsCfg F → StopParams F
  from_settings s = record {
    hard_stop = s.hard_stop;
    time_stop_bars = s.time_stop_days;
    signal_decay_halve = s.signal_decay_halve;
    signal_decay_exit = s.signal_decay_exit;
    trailing_car = f.abs s.trailing_car;
    trailing_gme = f.abs s.trailing_gme;
    trailing_mixed = f.abs s.trailing_mixed;
  }

  abbrev pub peak_eval : Position F → MarkSnapshot F → F
  peak_eval meta mark = fmax meta.peak_price mark.peak_before

  -- The state that the stops see: the peak already holds `peak_before`.
  abbrev stop_state : Position F → MarkSnapshot F → StopState F
  stop_state meta mark = record {
    entry_price = meta.entry_price;
    peak_price = peak_eval meta mark;
    current_score = meta.current_score;
    entry_score = meta.entry_score;
    bars_held = meta.bars_held;
    setup_type = meta.setup_type;
    halved = meta.halved;
  }

  abbrev waiting : MarkSnapshot F → F → Bool → ExitDecision F
  waiting mark new_peak halved = record {
    action = Action.hold;
    reason = none;
    qty = 0;
    fill_reference = mark.eval_price;
    price_triggered = false;
    new_peak = new_peak;
    halved = halved;
  }

  -- From the signal to the decision.
  unfoldable pub decision_for : Position F → MarkSnapshot F → StopSignal → ExitDecision F
  decision_for meta mark sig =
      let new_peak = fmax (peak_eval meta mark) mark.peak_after in
      let triggered = price_triggered sig in
      let fill = if triggered then mark.fill_on_price_stop else mark.fill_on_other_stop in
      let wait : Bool → ExitDecision F = waiting mark new_peak in
      elim sig.action [
        | Action.hold ↦ wait meta.halved
        | Action.halve ↦ if meta.qty / 2 == 0 then wait true else record {
          action = Action.halve;
          reason = sig.reason;
          qty = meta.qty / 2;
          fill_reference = fill;
          price_triggered = false;
          new_peak = new_peak;
          halved = true;
        }
        | Action.exit ↦ record {
          action = Action.exit;
          reason = sig.reason;
          qty = meta.qty;
          fill_reference = fill;
          price_triggered = triggered;
          new_peak = new_peak;
          halved = meta.halved;
        }
      ]

  unfoldable pub decide_exit : Position F → MarkSnapshot F → StopParams F → Outcome (ExitDecision F)
  decide_exit meta mark params = do
    sig ← evaluate_stops (stop_state meta mark) mark.eval_price params
    ok (decision_for meta mark sig)
