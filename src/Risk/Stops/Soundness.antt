-- ===== src/Risk/Stops/Soundness.antt =====
-- The stop stack of risk/stops.py never raises on a priced position, and a lower price never
-- rescues one.
use squeeze_hunter.Prelude.{
  ◌≡◌, Bool, List, [], ◌∷◌, not, ◌&&◌, leb, true, ok, if◌then◌else◌, arith,
}
use squeeze_hunter.Prelude.Floats.{
  Floats, nought, ◌≼◌, ◌≺◌, IsOrdered, le_of_lt, lt_of_lt_of_le, pos-ne-zero,
}
use squeeze_hunter.Risk.Stops.{
  Action, StopReason, StopSignal, StopState, StopParams, price_triggered, signal, holding,
  trailing_for, decay_arm, time_arm, trailing_arm, evaluate_stops,
}

abbrev pub first_firing : List (Bool × StopSignal) → StopSignal
first_firing [] = holding
first_firing ((fires, s) ∷ arms) = if fires then s else first_firing arms

module _ {F : Type 0} ⦃f : Floats F⦄ (laws : IsOrdered F) where
  -- The stop stack as a table: whether each arm fires, in order of priority, and what it signals.
  abbrev pub stop_table : StopState F → F → StopParams F → List (Bool × StopSignal)
  stop_table st price p =
      let decay = f.quotient (f.sub st.entry_score st.current_score) st.entry_score in
      let scored = f.lt nought st.entry_score in
      (
        f.le (f.quotient (f.sub price st.entry_price) st.entry_price) p.hard_stop,
        signal Action.exit StopReason.hard_stop,
      )
      ∷ (
        f.lt st.entry_price st.peak_price
            && f.le (f.quotient (f.sub price st.peak_price) st.peak_price)
                (f.neg (trailing_for st.setup_type p)),
        signal Action.exit StopReason.trailing_stop,
      )
      ∷ (leb p.time_stop_bars st.bars_held, signal Action.exit StopReason.time_stop)
      ∷ (scored && f.le p.signal_decay_exit decay, signal Action.exit StopReason.signal_decay_75)
      ∷ (
        scored && (f.le p.signal_decay_halve decay && not st.halved),
        signal Action.halve StopReason.signal_decay_50,
      )
      ∷ []

  decay_arm_lem :
      (st : StopState F) (p : StopParams F)
      → decay_arm st p
        ≡ ok (
            if f.lt nought st.entry_score
              && f.le p.signal_decay_exit
                  (f.quotient (f.sub st.entry_score st.current_score) st.entry_score)
            then signal Action.exit StopReason.signal_decay_75
            else if f.lt nought st.entry_score
                && (f.le p.signal_decay_halve
                      (f.quotient (f.sub st.entry_score st.current_score) st.entry_score)
                    && not st.halved)
            then signal Action.halve StopReason.signal_decay_50
            else holding)
  unfolding decay_arm
  decay_arm_lem st p = ground (arith, pos-ne-zero laws st.entry_score)

  -- The evaluation by the table.
  pub evaluate_stops-eq-first :
      (st : StopState F) (price : F) (p : StopParams F)
      → nought ≺ st.entry_price
      → evaluate_stops st price p ≡ ok (first_firing (stop_table st price p))
  unfolding evaluate_stops trailing_arm time_arm
  evaluate_stops-eq-first st price p h = ground (
    arith,
    decay_arm_lem st p,
    pos-ne-zero laws st.entry_price h,
    pos-ne-zero laws st.peak_price,
    lt_of_lt_of_le laws nought st.entry_price st.peak_price h,
    le_of_lt laws st.entry_price st.peak_price,
  )

  -- The move from a reference price, for the lower of two prices.
  move_mono :
      (x y e : F)
      → x ≼ y
      → f.is_finite x ≡ true
      → f.is_finite y ≡ true
      → f.is_finite e ≡ true
      → nought ≺ e
      → f.quotient (f.sub x e) e ≼ f.quotient (f.sub y e) e
  move_mono x y e h fx fy fe pe =
      let nx = laws.sub-IsNumber x e fx fe in
      let ny = laws.sub-IsNumber y e fy fe in
      laws.quotient_mono (f.sub x e) (f.sub y e) e (laws.sub_mono x y e h nx ny) pe
        (laws.quotient-IsNumber (f.sub x e) e nx fe pe)
        (laws.quotient-IsNumber (f.sub y e) e ny fe pe)

  -- On a position with a positive entry price, all prices finite: if a price-triggered stop (hard or
  -- trailing) closes it at one price, then at any lower price too a price-triggered stop closes it.
  pub lower_price_exits :
      (st : StopState F) (low high : F) (p : StopParams F) (s : StopSignal)
      → nought ≺ st.entry_price
      → f.is_finite st.entry_price ≡ true
      → f.is_finite st.peak_price ≡ true
      → f.is_finite low ≡ true
      → f.is_finite high ≡ true
      → low ≼ high
      → evaluate_stops st high p ≡ ok s
      → price_triggered s ≡ true
      → (t : StopSignal) × (evaluate_stops st low p ≡ ok t)
        × (price_triggered t ≡ true)
        × (t.action ≡ Action.exit)
  lower_price_exits st low high p s pos fe fp fl fh h e trig =
      let entry_move = move_mono low high st.entry_price h fl fh fe pos in
      let peak_move = move_mono low high st.peak_price h fl fh fp in
      let entry_trans =
        laws.le_trans (f.quotient (f.sub low st.entry_price) st.entry_price)
          (f.quotient (f.sub high st.entry_price) st.entry_price) p.hard_stop entry_move in
      let peak_trans =
        laws.le_trans (f.quotient (f.sub low st.peak_price) st.peak_price)
          (f.quotient (f.sub high st.peak_price) st.peak_price)
          (f.neg (trailing_for st.setup_type p)) in
      let at_high = evaluate_stops-eq-first st high p pos in
      let above = lt_of_lt_of_le laws nought st.entry_price st.peak_price pos in
      let risen = le_of_lt laws st.entry_price st.peak_price in
      (
        first_firing (stop_table st low p),
        evaluate_stops-eq-first st low p pos,
        ground (arith, at_high, entry_trans, peak_trans, peak_move, above, risen),
        ground (arith, at_high, entry_trans, peak_trans, peak_move, above, risen),
      )
