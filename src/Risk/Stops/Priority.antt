-- ===== src/Risk/Stops/Priority.antt =====
-- Which stop of risk/stops.py is signalled: the first that is due, in the order of the source.
use squeeze_hunter.Prelude.{
  ℕ, ◌≡◌, ◌≢◌, ◌≤◌, ◌↔◌, refl, Bool, true, false, not, ◌&&◌, leb, Option, none, some, ok, arith,
  if◌then◌else◌,
}
use squeeze_hunter.Prelude.Floats.{Floats, nought, ◌≼◌, ◌≺◌, IsOrdered}
use squeeze_hunter.Setup.{Setup}
use squeeze_hunter.Risk.Stops.{
  Action, StopReason, StopSignal, StopState, StopParams, signal, holding, trailing_for,
  evaluate_stops,
}
use squeeze_hunter.Risk.Stops.Soundness.{evaluate_stops-eq-first}

-- The order of the stops.
abbrev pub rank_of : StopReason → ℕ
rank_of StopReason.hard_stop = 0
rank_of StopReason.trailing_stop = 1
rank_of StopReason.time_stop = 2
rank_of StopReason.signal_decay_75 = 3
rank_of StopReason.signal_decay_50 = 4

-- Only half a lost score sells half.
abbrev pub action_for : StopReason → Action
action_for StopReason.signal_decay_50 = Action.halve
action_for reason = Action.exit

module _ {F : Type 0} ⦃f : Floats F⦄ where
  -- The change from a reference, as a part of it.
  abbrev pub change : F → F → F
  change now reference = f.quotient (f.sub now reference) reference

  -- A fall as deep as the distance of the setup; any setup but the two named has the mixed one.
  abbrev pub IsDeep : StopParams F → Setup → F → Type 0
  IsDeep p setup fall =
      (setup ≡ Setup.car → fall ≼ f.neg p.trailing_car)
      × (setup ≡ Setup.gme → fall ≼ f.neg p.trailing_gme)
      × (setup ≢ Setup.car → setup ≢ Setup.gme → fall ≼ f.neg p.trailing_mixed)

  -- When each stop is due by itself. The lost part of the score is counted of the entry score.
  abbrev pub IsDue : StopState F → F → StopParams F → StopReason → Type 0
  IsDue st price p StopReason.hard_stop = change price st.entry_price ≼ p.hard_stop
  IsDue st price p StopReason.trailing_stop =
      (st.entry_price ≺ st.peak_price) × IsDeep p st.setup_type (change price st.peak_price)
  IsDue st price p StopReason.time_stop = p.time_stop_bars ≤ st.bars_held
  IsDue st price p StopReason.signal_decay_75 =
      (nought ≺ st.entry_score)
      × (p.signal_decay_exit ≼ f.quotient (f.sub st.entry_score st.current_score) st.entry_score)
  IsDue st price p StopReason.signal_decay_50 =
      (nought ≺ st.entry_score)
      × (p.signal_decay_halve ≼ f.quotient (f.sub st.entry_score st.current_score) st.entry_score)
      × (st.halved ≡ false)

  -- The signal names a stop that is due and acts as that stop does, no stop before it is due, and it
  -- is to hold only if none is.
  pub record IsFirstDue (st : StopState F) (price : F) (p : StopParams F) (s : StopSignal)
      : Type 0 where
    pub named :
        (r : StopReason) → s.reason ≡ some r → IsDue st price p r × (s.action ≡ action_for r)
    pub held : s.reason ≡ none → s.action ≡ Action.hold
    pub first :
        (q : StopReason)
        → IsDue st price p q
        → (r : StopReason) × (s.reason ≡ some r) × (rank_of r ≤ rank_of q)

module _ {F : Type 0} ⦃f : Floats F⦄ where
  IsDeep_lem :
      (p : StopParams F) (setup : Setup) (fall : F)
      → IsDeep p setup fall ↔ (f.le fall (f.neg (trailing_for setup p)) ≡ true)
  IsDeep_lem p Setup.car fall =
      ((λ d. d.0 refl), λ e. ((λ c. e), (λ c. cc), λ n m. absurd (n refl)))
  IsDeep_lem p Setup.gme fall =
      ((λ d. d.1 refl), λ e. ((λ c. cc), (λ c. e), λ n m. absurd (m refl)))
  IsDeep_lem p Setup.mixed fall =
      ((λ d. d.2 (λ c. cc) (λ c. cc)), λ e. ((λ c. cc), (λ c. cc), λ n m. e))
  IsDeep_lem p Setup.weak fall =
      ((λ d. d.2 (λ c. cc) (λ c. cc)), λ e. ((λ c. cc), (λ c. cc), λ n m. e))
  IsDeep_lem p (Setup.unlisted n) fall =
      ((λ d. d.2 (λ c. cc) (λ c. cc)), λ e. ((λ c. cc), (λ c. cc), λ n m. e))

  -- The test of each stop.
  abbrev fires : StopState F → F → StopParams F → StopReason → Bool
  fires st price p StopReason.hard_stop = f.le (change price st.entry_price) p.hard_stop
  fires st price p StopReason.trailing_stop =
      f.lt st.entry_price st.peak_price
      && f.le (change price st.peak_price) (f.neg (trailing_for st.setup_type p))
  fires st price p StopReason.time_stop = leb p.time_stop_bars st.bars_held
  fires st price p StopReason.signal_decay_75 =
      f.lt nought st.entry_score
      && f.le p.signal_decay_exit
          (f.quotient (f.sub st.entry_score st.current_score) st.entry_score)
  fires st price p StopReason.signal_decay_50 =
      f.lt nought st.entry_score
      && (f.le p.signal_decay_halve
            (f.quotient (f.sub st.entry_score st.current_score) st.entry_score)
          && not st.halved)

  fires_iff :
      (st : StopState F) (price : F) (p : StopParams F) (r : StopReason)
      → IsDue st price p r ↔ (fires st price p r ≡ true)
  fires_iff st price p StopReason.hard_stop = ((λ h. h), λ h. h)
  fires_iff st price p StopReason.trailing_stop =
      let deep = IsDeep_lem p st.setup_type (change price st.peak_price) in
      ((λ (above, d). let e = deep.0 d in ground arith), λ e. (ground arith, deep.1 (ground arith)))
  fires_iff st price p StopReason.time_stop = ground arith
  fires_iff st price p StopReason.signal_decay_75 = ground arith
  fires_iff st price p StopReason.signal_decay_50 = ground arith

-- The first of five tests that holds.
abbrev first_of : (StopReason → Bool) → StopSignal
first_of test =
    if test StopReason.hard_stop
    then signal Action.exit StopReason.hard_stop
    else if test StopReason.trailing_stop
    then signal Action.exit StopReason.trailing_stop
    else if test StopReason.time_stop
    then signal Action.exit StopReason.time_stop
    else if test StopReason.signal_decay_75
    then signal Action.exit StopReason.signal_decay_75
    else if test StopReason.signal_decay_50
    then signal Action.halve StopReason.signal_decay_50
    else holding

first_of-named :
    (test : StopReason → Bool) (r : StopReason)
    → (first_of test).reason ≡ some r
    → (test r ≡ true) × ((first_of test).action ≡ action_for r)
first_of-named test StopReason.hard_stop e = ground arith
first_of-named test StopReason.trailing_stop e = ground arith
first_of-named test StopReason.time_stop e = ground arith
first_of-named test StopReason.signal_decay_75 e = ground arith
first_of-named test StopReason.signal_decay_50 e = ground arith

first_of-held :
    (test : StopReason → Bool)
    → (first_of test).reason ≡ none
    → (first_of test).action ≡ Action.hold
first_of-held test e = ground arith

-- The reason of a signal that has one.
abbrev reason_or : Option StopReason → StopReason
reason_or none = StopReason.signal_decay_50
reason_or (some r) = r

first_of-first :
    (test : StopReason → Bool) (q : StopReason)
    → test q ≡ true
    → (r : StopReason) × ((first_of test).reason ≡ some r) × (rank_of r ≤ rank_of q)
first_of-first test q due = (reason_or (first_of test).reason, found test q due, early test q due)
  where
    found :
        (test : StopReason → Bool) (q : StopReason)
        → test q ≡ true
        → (first_of test).reason ≡ some (reason_or (first_of test).reason)
    found test StopReason.hard_stop due = ground arith
    found test StopReason.trailing_stop due = ground arith
    found test StopReason.time_stop due = ground arith
    found test StopReason.signal_decay_75 due = ground arith
    found test StopReason.signal_decay_50 due = ground arith

    early :
        (test : StopReason → Bool) (q : StopReason)
        → test q ≡ true
        → rank_of (reason_or (first_of test).reason) ≤ rank_of q
    early test StopReason.hard_stop due = ground arith
    early test StopReason.trailing_stop due = ground arith
    early test StopReason.time_stop due = ground arith
    early test StopReason.signal_decay_75 due = ground arith
    early test StopReason.signal_decay_50 due = ground arith

module _ {F : Type 0} ⦃f : Floats F⦄ (laws : IsOrdered F) where
  -- On a position with a positive entry price the evaluation raises nothing. Its signal names a stop
  -- that is due, with half the position sold for the half-lost score alone and all of it for the
  -- others; no stop of an earlier rank is due: the hard one, the trailing one at the distance of the
  -- setup, the one on time and the two on the score. It is to hold only if no stop is due.
  pub evaluate_stops-IsFirstDue :
      (st : StopState F) (price : F) (p : StopParams F)
      → nought ≺ st.entry_price
      → (s : StopSignal) × (evaluate_stops st price p ≡ ok s) × IsFirstDue st price p s
  evaluate_stops-IsFirstDue st price p priced =
      let test = fires st price p in
      (
        first_of test,
        evaluate_stops-eq-first laws st price p priced,
        record {
          named = λ r e.
              let (fired, acts) = first_of-named test r e in
              ((fires_iff st price p r).1 fired, acts);
          held = first_of-held test;
          first = λ q due. first_of-first test q ((fires_iff st price p q).0 due);
        },
      )
