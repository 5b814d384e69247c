-- ===== src/Execution/Decisions/Exits.antt =====
-- What `decide_exit` of execution/decisions.py may order, once and over whole runs of marks.
use squeeze_hunter.Prelude.{
  ℕ, ◌+◌, ◌/◌, ◌≤◌, ◌<◌, ◌≡◌, refl, true, false, List, [], ◌∷◌, Outcome, ok, Option, ◌>>=◌,
  >>=-eq-ok, ◌==◌, Bool-cases, inl, inr, if◌then◌else◌, arith,
}
use mathlib.Core.Path.{subst}
use squeeze_hunter.Prelude.Floats.{Floats, fmax, ◌≼◌, IsNumber, IsOrdered, le-fmax}
use squeeze_hunter.Risk.Stops.{
  Action, StopReason, StopState, StopParams, StopSignal, decay_arm, time_arm, trailing_arm,
  evaluate_stops,
}
use squeeze_hunter.Execution.Book.{Position}
use squeeze_hunter.Execution.Decisions.{
  MarkSnapshot, ExitDecision, apply_exit_decision, peak_eval, stop_state, decision_for, decide_exit,
}

abbrev is_halve : Action → ℕ
is_halve Action.halve = 1
is_halve _ = 0

module _ {F : Type 0} ⦃f : Floats F⦄ where
  -- What each action may carry.
  abbrev pub OrderedBy : Position F → ExitDecision F → Action → Type 0
  OrderedBy meta d Action.hold = d.qty ≡ 0
  OrderedBy meta d Action.halve =
      (meta.halved ≡ false) × (d.halved ≡ true) × (0 < d.qty) × (d.qty ≡ meta.qty / 2)
  OrderedBy meta d Action.exit = (d.qty ≡ meta.qty) × (d.halved ≡ meta.halved)

  evaluate_stops-halve :
      (st : StopState F) (price : F) (p : StopParams F) (s : StopSignal)
      → evaluate_stops st price p ≡ ok s
      → s.action ≡ Action.halve
      → st.halved ≡ false
  unfolding evaluate_stops trailing_arm time_arm decay_arm
  evaluate_stops-halve st price p s e a = ground arith

  decision_for-OrderedBy :
      (a : Action) (r : Option StopReason) (meta : Position F) (mark : MarkSnapshot F)
      → (a ≡ Action.halve → meta.halved ≡ false)
      → let d = decision_for meta mark (record { action = a; reason = r }) in
        OrderedBy meta d d.action × (meta.halved ≡ true → d.halved ≡ true)
  unfolding decision_for
  decision_for-OrderedBy Action.hold r meta mark once = ground arith
  decision_for-OrderedBy Action.exit r meta mark once = ground arith
  decision_for-OrderedBy Action.halve r meta mark once = elim (Bool-cases (meta.qty / 2 == 0)) [
    | inl single ↦ rw single (ground arith)
    | inr several ↦ rw several (ground arith)
  ]

  -- What is ordered, and that the mark of a halve is never taken back.
  decide_exit_lem :
      (meta : Position F) (mark : MarkSnapshot F) (params : StopParams F) (d : ExitDecision F)
      → decide_exit meta mark params ≡ ok d
      → OrderedBy meta d d.action × (meta.halved ≡ true → d.halved ≡ true)
  unfolding decide_exit
  decide_exit_lem meta mark params d e =
      let (s, evaluated, decided) =
        >>=-eq-ok (evaluate_stops (stop_state meta mark) mark.eval_price params) _ e in
      let ordered =
        decision_for-OrderedBy s.action s.reason meta mark
          (evaluate_stops-halve (stop_state meta mark) mark.eval_price params s evaluated) in
      let same : decision_for meta mark s ≡ d = ground arith in
      subst (λ o. OrderedBy meta o o.action × (meta.halved ≡ true → o.halved ≡ true)) same ordered

  -- A decision sells nothing on hold and everything on exit; it halves only a position that has not
  -- been halved, by half its shares and at least one, and marks it.
  pub decide_exit-OrderedBy :
      (meta : Position F) (mark : MarkSnapshot F) (params : StopParams F) (d : ExitDecision F)
      → decide_exit meta mark params ≡ ok d
      → OrderedBy meta d d.action
  decide_exit-OrderedBy meta mark params d e = (decide_exit_lem meta mark params d e).0

  -- The decisions over a run of marks, the bookkeeping applied after each.
  unfoldable pub watch :
      Position F → List (MarkSnapshot F) → StopParams F → Outcome (List (ExitDecision F))
  watch meta [] params = ok []
  watch meta (mark ∷ marks) params = do
    d ← decide_exit meta mark params
    ds ← watch (apply_exit_decision meta d) marks params
    ok (d ∷ ds)

  abbrev pub halves : List (ExitDecision F) → ℕ
  halves [] = 0
  halves (d ∷ ds) = is_halve d.action + halves ds

  abbrev halves_left : Position F → ℕ
  halves_left meta = if meta.halved then 0 else 1

  halves_step :
      (a : Action) (meta : Position F) (d : ExitDecision F) (ds : List (ExitDecision F))
      → OrderedBy meta d a
      → (meta.halved ≡ true → d.halved ≡ true)
      → halves ds ≤ halves_left (apply_exit_decision meta d)
      → is_halve a + halves ds ≤ halves_left meta
  unfolding apply_exit_decision
  halves_step Action.hold meta d ds o kept ih = ground arith
  halves_step Action.halve meta d ds o kept ih = ground arith
  halves_step Action.exit meta d ds o kept ih = ground arith

  -- The halve is a one-shot: over any run of marks a position is halved at most once, and not at all
  -- if it was halved before.
  pub halves-watch :
      (meta : Position F) (marks : List (MarkSnapshot F)) (params : StopParams F)
      (all : List (ExitDecision F))
      → watch meta marks params ≡ ok all
      → halves all ≤ halves_left meta
  unfolding watch
  halves-watch meta [] params all e = ground arith
  halves-watch meta (mark ∷ marks) params all e =
      let (d, decided, then_rest) = >>=-eq-ok (decide_exit meta mark params) _ e in
      let (ds, watched, same) =
        >>=-eq-ok (watch (apply_exit_decision meta d) marks params) _ then_rest in
      let ordered = decide_exit_lem meta mark params d decided in
      let ih = halves-watch (apply_exit_decision meta d) marks params ds watched in
      let same : d ∷ ds ≡ all = ground arith in
      subst (λ l. halves l ≤ halves_left meta) same
        (halves_step d.action meta d ds ordered.0 ordered.1 ih)

  decision_for-new_peak :
      (a : Action) (r : Option StopReason) (meta : Position F) (mark : MarkSnapshot F)
      → (decision_for meta mark (record { action = a; reason = r })).new_peak
        ≡ fmax (peak_eval meta mark) mark.peak_after
  unfolding decision_for
  decision_for-new_peak Action.hold r meta mark = refl
  decision_for-new_peak Action.exit r meta mark = refl
  decision_for-new_peak Action.halve r meta mark = elim (Bool-cases (meta.qty / 2 == 0)) [
    | inl single ↦ rw single
    | inr several ↦ rw several
  ]

  -- Over numbers the recorded peak never falls, and covers both peaks of the mark.
  decide_exit-peak :
      (laws : IsOrdered F) (meta : Position F) (mark : MarkSnapshot F) (params : StopParams F)
      (d : ExitDecision F)
      → IsNumber meta.peak_price
      → IsNumber mark.peak_before
      → IsNumber mark.peak_after
      → decide_exit meta mark params ≡ ok d
      → (meta.peak_price ≼ d.new_peak)
        × (mark.peak_before ≼ d.new_peak)
        × (mark.peak_after ≼ d.new_peak)
  unfolding decide_exit
  decide_exit-peak laws meta mark params d n b a e =
      let (s, evaluated, decided) =
        >>=-eq-ok (evaluate_stops (stop_state meta mark) mark.eval_price params) _ e in
      let same : decision_for meta mark s ≡ d = ground arith in
      let peak = decision_for-new_peak s.action s.reason meta mark in
      let (old, before, number) = le-fmax laws meta.peak_price mark.peak_before n b in
      let (held, after, _) = le-fmax laws (peak_eval meta mark) mark.peak_after number a in
      subst
        (λ o.
          (meta.peak_price ≼ o.new_peak)
          × (mark.peak_before ≼ o.new_peak)
          × (mark.peak_after ≼ o.new_peak))
        same
        (rw peak (
          laws.le_trans meta.peak_price (peak_eval meta mark) _ old held,
          laws.le_trans mark.peak_before (peak_eval meta mark) _ before held,
          after,
        ))
