-- ===== src/Execution/Entries/Planned.antt =====
-- What `plan` of execution/entries.py leaves planned.
use squeeze_hunter.Prelude.{
  ℕ, ◌≡◌, ◌⊎◌, refl, inl, inr, Bool, true, false, List, [], ◌∷◌, Outcome, ok, All, keep, ◌>>=◌,
  >>=-eq-ok, arith, Bool-cases, Option-cases, Outcome-cases,
}
use mathlib.Core.Path.{subst}
use squeeze_hunter.Prelude.Dict.{Dict, insert}
use squeeze_hunter.Prelude.Floats.{Floats, nought, divide}
use squeeze_hunter.Broker.{Time}
use squeeze_hunter.Risk.Gates.{GateContext}
use squeeze_hunter.Execution.Proposals.{EntryDecision, Candidate, EntrySettings, propose_entries}
use squeeze_hunter.Execution.Proposals.Reservations.{IsFresh, propose_entries-IsWithin}
use squeeze_hunter.Execution.Lifecycle.{BrokerCalls, is_transient}
use squeeze_hunter.Execution.Entries.{EntryPath, EntryCfg}
use squeeze_hunter.Execution.Entries.Plan.{
  quantities, account, no_stats, last_session_end, plan_with, plan_candidates, plan, gross_from,
}

module _ {F : Type 0} where
  -- Each of them was accepted, and none is held or planned before.
  abbrev pub ArePlanned : EntryPath F → List (EntryDecision F) → Type 0
  ArePlanned s ds =
      All (λ (d : EntryDecision F). d.accepted ≡ true) ds × IsFresh (quantities s.book) ds

  keep-accepted :
      (ds : List (EntryDecision F))
      → All (λ (d : EntryDecision F). d.accepted ≡ true) (keep (λ d. d.accepted) ds)
  keep-accepted [] = tt
  keep-accepted (d ∷ ds) = elim (Bool-cases d.accepted) [
    | inl taken ↦ rw taken (refl, keep-accepted ds)
    | inr left ↦ rw left (keep-accepted ds)
  ]

  keep-IsFresh :
      (held : Dict ℕ) (ds : List (EntryDecision F))
      → IsFresh held ds
      → IsFresh held (keep (λ d. d.accepted) ds)
  keep-IsFresh held [] h = tt
  keep-IsFresh held (d ∷ ds) h = elim (Bool-cases d.accepted) [
    | inl taken ↦
        rw taken (rw taken at h.0, keep-IsFresh (insert d.ticker 0 held) ds (rw taken at h.1))
    | inr left ↦ rw left (keep-IsFresh held ds (rw left at h.1))
  ]

module _ {F W : Type 0} ⦃f : Floats F⦄ (b : BrokerCalls F W) (cfg : EntryCfg F)
    (settings : EntrySettings F) (gate_context : Time → Outcome (GateContext F))
    (append_decisions : Time → List (EntryDecision F) → W → Outcome (Unit {0}) × W)
    (now : Time) where
  abbrev proposed :
      List (Candidate F) → GateContext F → F → EntryPath F → Outcome (List (EntryDecision F))
  proposed candidates ctx equity s = account equity s.telemetry.position_marks s.book >>= λ state.
      propose_entries candidates state ctx settings (λ setup. ok no_stats)

  proposed-IsFresh :
      (candidates : List (Candidate F)) (ctx : GateContext F) (equity : F) (s : EntryPath F)
      (decisions : List (EntryDecision F))
      → proposed candidates ctx equity s ≡ ok decisions
      → IsFresh (quantities s.book) decisions
  proposed-IsFresh candidates ctx equity s decisions e =
      let marks = s.telemetry.position_marks in
      let (state, counted, decided) = >>=-eq-ok (account equity marks s.book) _ e in
      let (pct, _, made) = >>=-eq-ok (divide (gross_from nought marks s.book) equity) _ counted in
      let same : state.positions ≡ quantities s.book = ground arith in
      let within =
        propose_entries-IsWithin ctx settings candidates state (λ setup. ok no_stats) decisions
          decided in
      subst (λ held. IsFresh held decisions) same within.fresh

  -- Either nothing is planned, or the switch is off and the plan is sound. The book stays.
  abbrev pub PlansSoundly : Bool → EntryPath F → EntryPath F → Type 0
  PlansSoundly kill_active s s' =
      (s'.book ≡ s.book) × ((s'.planned ≡ []) ⊎ ((kill_active ≡ false) × ArePlanned s s'.planned))

  plan_with_sound :
      (candidates : List (Candidate F)) (ctx : GateContext F) (equity : F) (s : EntryPath F) (w : W)
      → s.planned ≡ []
      → PlansSoundly false s
          (plan_with b cfg settings gate_context append_decisions now candidates ctx equity s w).1
  unfolding plan_with
  plan_with_sound candidates ctx equity s w none_yet =
      elim (Outcome-cases (proposed candidates ctx equity s)) [
        | inr (x, e) ↦ rw (plan_with, e) (refl, inl none_yet)
        | inl (decisions, e) ↦ elim (Outcome-cases (append_decisions now decisions w).0) [
          | inr (x, r) ↦ rw (plan_with, e, r) (refl, inl none_yet)
          | inl (done, r) ↦
              rw (plan_with, e, r)
                (
                  refl,
                  inr (
                    refl,
                    (
                      keep-accepted decisions,
                      keep-IsFresh (quantities s.book) decisions
                          (proposed-IsFresh candidates ctx equity s decisions e),
                    ),
                  ),
                )
        ]
      ]

  plan_candidates_sound :
      (candidates : List (Candidate F)) (s : EntryPath F) (w : W)
      → s.planned ≡ []
      → PlansSoundly false s
          (plan_candidates b cfg settings gate_context append_decisions now candidates s w).1
  unfolding plan_candidates
  plan_candidates_sound candidates s w none_yet =
      elim (Outcome-cases (gate_context (last_session_end cfg now))) [
        | inr (x, e) ↦ rw (plan_candidates, e) (refl, inl none_yet)
        | inl (ctx, e) ↦ elim (Outcome-cases (b.get_equity_usd w).0) [
          | inr (x, r) ↦ elim (Bool-cases (is_transient x)) [
            | inl c ↦ rw (plan_candidates, e, r, c) (refl, inl none_yet)
            | inr c ↦ rw (plan_candidates, e, r, c) (refl, inl none_yet)
          ]
          | inl (value, r) ↦ elim (Option-cases value) [
            | inl v ↦ rw (plan_candidates, e, r, v) (refl, inl none_yet)
            | inr (equity, v) ↦ elim (Bool-cases (f.le equity nought)) [
              | inl c ↦ rw (plan_candidates, e, r, v, c) (refl, inl none_yet)
              | inr c ↦
                  rw (plan_candidates, e, r, v, c)
                    (plan_with_sound candidates ctx equity s (b.get_equity_usd w).1 none_yet)
            ]
          ]
        ]
      ]

  -- Planning leaves the book alone. It plans nothing, or the killswitch is off, every planned entry was
  -- accepted, and its ticker is neither held nor planned before.
  pub plan_sound :
      (candidates : List (Candidate F)) (kill_active : Bool) (s : EntryPath F) (w : W)
      → PlansSoundly kill_active s
          (plan b cfg settings gate_context append_decisions now candidates kill_active s w).1
  unfolding plan
  plan_sound [] true s w = (refl, inl refl)
  plan_sound [] false s w = (refl, inl refl)
  plan_sound (c ∷ cs) true s w = (refl, inl refl)
  plan_sound (c ∷ cs) false s w = plan_candidates_sound (c ∷ cs) (record s { planned = [] }) w refl
