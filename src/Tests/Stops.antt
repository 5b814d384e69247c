-- ===== src/Tests/Stops.antt =====
-- risk/stops.py at concrete inputs: a CAR position that fell from its peak.
use squeeze_hunter.Prelude.{◌≡◌, refl, true, false, ok}
use squeeze_hunter.Prelude.Fixed.{Fixed, fixed_floats, Fixed-IsOrdered}
use squeeze_hunter.Prelude.Int.{sub, mul, quot}
use squeeze_hunter.Setup.{Setup}
use squeeze_hunter.Risk.Stops.{
  Action, StopReason, StopState, StopParams, StopSignal, signal, price_triggered, evaluate_stops,
  trailing_arm,
}
use squeeze_hunter.Risk.Stops.Priority.{IsFirstDue, evaluate_stops-IsFirstDue}
use squeeze_hunter.Risk.Stops.Soundness.{lower_price_exits}

abbrev pub held : StopState Fixed
held = record {
  entry_price = fixed_floats.dec 10 0;
  peak_price = fixed_floats.dec 12 0;
  current_score = fixed_floats.dec 4 0;
  entry_score = fixed_floats.dec 5 0;
  bars_held = 3;
  setup_type = Setup.car;
  halved = false;
}

abbrev pub params : StopParams Fixed
params = record {
  hard_stop = fixed_floats.neg (fixed_floats.dec 12 2);
  time_stop_bars = 20;
  signal_decay_halve = fixed_floats.dec 5 1;
  signal_decay_exit = fixed_floats.dec 75 2;
  trailing_car = fixed_floats.dec 15 2;
  trailing_gme = fixed_floats.dec 25 2;
  trailing_mixed = fixed_floats.dec 2 1;
}

evaluate_stops-IsFirstDue_example :
    (s : StopSignal) × (evaluate_stops held (fixed_floats.dec 10 0) params ≡ ok s)
    × IsFirstDue held (fixed_floats.dec 10 0) params s
evaluate_stops-IsFirstDue_example =
    evaluate_stops-IsFirstDue Fixed-IsOrdered held (fixed_floats.dec 10 0) params refl

trailing_exit :
    evaluate_stops held (fixed_floats.dec 10 0) params
    ≡ ok (signal Action.exit StopReason.trailing_stop)
unfolding evaluate_stops trailing_arm quot mul sub
trailing_exit = refl

lower_price_exits_example :
    (t : StopSignal) × (evaluate_stops held (fixed_floats.dec 8 0) params ≡ ok t)
    × (price_triggered t ≡ true)
    × (t.action ≡ Action.exit)
lower_price_exits_example =
    lower_price_exits Fixed-IsOrdered held (fixed_floats.dec 8 0) (fixed_floats.dec 10 0) params
      (signal Action.exit StopReason.trailing_stop) refl refl refl refl refl refl trailing_exit refl
