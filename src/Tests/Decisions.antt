-- ===== src/Tests/Decisions.antt =====
-- The exits of execution/decisions.py at concrete inputs: nine shares of a GME position.
use squeeze_hunter.Prelude.{◌≤◌, ◌≡◌, refl, true, false, none, some, [], ◌∷◌, ok}
use squeeze_hunter.Prelude.Int.{sub, mul, quot}
use squeeze_hunter.Prelude.Floats.{nought}
use squeeze_hunter.Prelude.Fixed.{Fixed, fixed_floats}
use squeeze_hunter.Setup.{Setup}
use squeeze_hunter.Risk.Stops.{
  Action, StopReason, StopParams, evaluate_stops, trailing_arm, time_arm, decay_arm,
}
use squeeze_hunter.Execution.Book.{Position}
use squeeze_hunter.Execution.Decisions.{
  MarkSnapshot, ExitDecision, from_quote, decide_exit, decision_for, apply_exit_decision,
}
use squeeze_hunter.Execution.Decisions.Exits.{
  OrderedBy, decide_exit-OrderedBy, watch, halves, halves-watch,
}

abbrev pub position : Position Fixed
position = record {
  ticker = 1;
  qty = 9;
  entry_price = fixed_floats.dec 10 0;
  peak_price = fixed_floats.dec 10 0;
  entry_score = fixed_floats.dec 8 0;
  current_score = fixed_floats.dec 3 0;
  bars_held = 2;
  setup_type = Setup.gme;
  halved = false;
  entry_commission_per_share = nought;
  pending_exits = [];
  pending_action = none;
  pending_qty = none;
  last_mark = none;
}

abbrev pub settings : StopParams Fixed
settings = record {
  hard_stop = fixed_floats.neg (fixed_floats.dec 12 2);
  time_stop_bars = 21;
  signal_decay_halve = fixed_floats.dec 5 1;
  signal_decay_exit = fixed_floats.dec 75 2;
  trailing_car = fixed_floats.dec 20 2;
  trailing_gme = fixed_floats.dec 25 2;
  trailing_mixed = fixed_floats.dec 22 2;
}

abbrev mark : MarkSnapshot Fixed
mark = from_quote (fixed_floats.dec 11 0)

abbrev halving : ExitDecision Fixed
halving = record {
  action = Action.halve;
  reason = some StopReason.signal_decay_50;
  qty = 4;
  fill_reference = fixed_floats.dec 11 0;
  price_triggered = false;
  new_peak = fixed_floats.dec 11 0;
  halved = true;
}

halving_due : decide_exit position mark settings ≡ ok halving
unfolding decide_exit evaluate_stops from_quote quot mul sub trailing_arm time_arm decay_arm
    decision_for
halving_due = refl

decide_exit-OrderedBy_example : OrderedBy position halving halving.action
decide_exit-OrderedBy_example = decide_exit-OrderedBy position mark settings halving halving_due

abbrev waiting : ExitDecision Fixed
waiting = record {
  action = Action.hold;
  reason = none;
  qty = 0;
  fill_reference = fixed_floats.dec 11 0;
  price_triggered = false;
  new_peak = fixed_floats.dec 11 0;
  halved = true;
}

watched : watch position (mark ∷ mark ∷ []) settings ≡ ok (halving ∷ waiting ∷ [])
unfolding watch decide_exit evaluate_stops from_quote quot mul sub trailing_arm time_arm decay_arm
    decision_for apply_exit_decision
watched = refl

halves-watch_example : halves (halving ∷ waiting ∷ []) ≤ 1
halves-watch_example =
    halves-watch position (mark ∷ mark ∷ []) settings (halving ∷ waiting ∷ []) watched
