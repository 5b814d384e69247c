-- ===== src/Runtime/Premarket.antt =====
-- When the planning of runtime.py leaves entries planned.
use squeeze_hunter.Prelude.{
  ◌≡◌, ◌⊎◌, refl, ap, ◌∙◌, inl, inr, true, false, ◌&&◌, not, Option, none, some, List, [], ◌∷◌,
  ◌++◌, ok, All, contains, if◌then◌else◌, arith, Bool-cases, Option-cases, Outcome-cases, get_or,
}
use squeeze_hunter.Prelude.Dict.{Dict}
use squeeze_hunter.Prelude.Floats.{Floats}
use squeeze_hunter.Broker.{Time}
use squeeze_hunter.Ingest.{Dataset, dataset_age_days}
use squeeze_hunter.Execution.Entries.Planned.{ArePlanned, plan_sound}
use squeeze_hunter.Runtime.{RuntimeContext, ◌>>=◌, call, return, entry_path}
use squeeze_hunter.Runtime.Rules.{Keeps, >>=-Keeps, or_transient-Keeps, >>=-run}
use squeeze_hunter.Runtime.Services.{Services, RuntimeCfg, Problem, Alert}
use squeeze_hunter.Runtime.Persist.{persist, notify}
use squeeze_hunter.Runtime.Scan.{data_freshness_problems-Checked, persist-state}
use squeeze_hunter.Runtime.Tick.{is_empty}
use squeeze_hunter.Runtime.Daily.{
  problems_of, problem_of, data_freshness_problems, plan_entries, plan_unless_stale, plan_if_fresh,
  premarket_verify,
}

append_nil : {A : Type 0} (xs ys : List A) → xs ++ ys ≡ [] → (xs ≡ []) × (ys ≡ [])
append_nil [] ys e = (refl, e)
append_nil (x ∷ xs) ys e = cc

nil_of : {A : Type 0} (xs : List A) → (not (is_empty xs) && true) ≡ false → xs ≡ []
nil_of [] e = refl
nil_of (x ∷ xs) e = cc

module _ {F Stamp W : Type 0} ⦃f : Floats F⦄ (svc : Services F Stamp W) (cfg : RuntimeCfg F)
    (now : Time) where
  -- Every critical data set has a known age, within its budget.
  abbrev pub AreRecent : Dict F → W → Type 0
  AreRecent budgets w =
      All
        (λ (e : Dataset × F).
          contains e.0 cfg.critical_datasets ≡ true
          → (age : F) × (dataset_age_days svc.datetimes (svc.read_freshness w).0 e.0 now ≡ some age)
            × (f.lt e.1 age ≡ false))
        budgets

  problem_of-none :
      (dataset : Dataset) (budget : F) (age : Option F)
      → problem_of svc cfg dataset budget age ≡ []
      → (a : F) × (age ≡ some a) × (f.lt budget a ≡ false)
  problem_of-none dataset budget none e = cc
  problem_of-none dataset budget (some a) e = (a, refl, ground arith)

  module _ (reads : (v : W) → (svc.read_freshness v).1 ≡ v) where
    problems_of-AreRecent :
        (budgets : Dict F) (found : List (Problem F)) (s : RuntimeContext F) (w : W)
        → (problems_of svc cfg now true budgets found s w).0 ≡ ok []
        → (found ≡ []) × AreRecent budgets w
    problems_of-AreRecent [] found s w e = (cc, tt)
    problems_of-AreRecent ((dataset, budget) ∷ budgets) found s w e =
        elim (Bool-cases (contains dataset cfg.critical_datasets)) [
          | inr other ↦
              let (none_found, rest) =
                problems_of-AreRecent budgets found s w (rw (problems_of, other) at e) in
              (none_found, ((λ critical. absurd (ground arith)), rest))
          | inl critical ↦
              let age = dataset_age_days svc.datetimes (svc.read_freshness w).0 dataset now in
              let (none_found, rest) =
                problems_of-AreRecent budgets (found ++ problem_of svc cfg dataset budget age) s w
                  (rw (problems_of, critical, reads w) at e) in
              let (empty, fine) =
                append_nil found (problem_of svc cfg dataset budget age) none_found in
              (empty, ((λ c. problem_of-none dataset budget age fine), rest))
        ]

  -- Entries that are planned have gone through every check.
  pub record IsReady (s t : RuntimeContext F) (w : W) : Type 0 where
    pub asked_for : cfg.auto_enter ≡ true
    pub switch_off : s.killswitch.active ≡ false
    pub recent : cfg.require_fresh_for_entries ≡ true → AreRecent cfg.budgets w
    pub sound : ArePlanned (entry_path s) t.planned

  abbrev pub Plans : RuntimeContext F → W → RuntimeContext F → Type 0
  Plans s w t = (t.lifecycle.positions ≡ s.lifecycle.positions) × ((t.planned ≡ []) ⊎ IsReady s t w)

  notify-state : (alert : Alert F) (s : RuntimeContext F) (w : W) → (notify svc alert s w).1 ≡ s
  unfolding notify
  notify-state alert s w = elim (Option-cases svc.send) [
    | inl e ↦ rw (notify, e) refl
    | inr (send, e) ↦
        rw (notify, e)
          (or_transient-Keeps (λ t v. t ≡ s) (call (send alert)) tt (λ t v h. h) s w refl)
  ]

  persist-Plans : (s : RuntimeContext F) (w : W) → Keeps (λ t v. Plans s w t) (persist svc)
  persist-Plans s w t v h = rw (persist-state svc cfg t v) h

  notify-Plans :
      (s : RuntimeContext F) (w : W) (alert : Alert F)
      → Keeps (λ t v. Plans s w t) (notify svc alert)
  notify-Plans s w alert t v h = rw (notify-state alert t v) h

  -- The daemon with no plan.
  abbrev unplanned : RuntimeContext F → RuntimeContext F
  unplanned s = record s { planned = [] }

  plan_entries-Plans :
      (s : RuntimeContext F) (w v : W)
      → cfg.auto_enter ≡ true
      → (cfg.require_fresh_for_entries ≡ true → AreRecent cfg.budgets w)
      → Plans s w (plan_entries svc cfg now (unplanned s) v).1
  plan_entries-Plans s w v asked recent =
      let candidates = get_or s.last_candidates [] in
      let path = entry_path (unplanned s) in
      let (book, planned) =
        plan_sound svc.broker cfg.execution cfg.entry svc.gate_context svc.append_decisions now
          candidates s.killswitch.active path v in
      (
        book,
        elim planned [
          | inl empty ↦ inl empty
          | inr (off, sound) ↦
              inr (record { asked_for = asked; switch_off = off; recent = recent; sound = sound })
        ],
      )

  plan_unless_stale-Plans :
      (s : RuntimeContext F) (w v : W) (problems : List (Problem F))
      → cfg.auto_enter ≡ true
      → (problems ≡ [] → AreRecent cfg.budgets w)
      → Plans s w (plan_unless_stale svc cfg now problems (unplanned s) v).1
  plan_unless_stale-Plans s w v problems asked recent =
      elim (Bool-cases (not (is_empty problems) && cfg.require_fresh_for_entries)) [
        | inl stale ↦
            rw (plan_unless_stale, stale)
              (>>=-Keeps (λ t u. Plans s w t) (notify svc (Alert.entries_refused problems))
                (λ done. persist svc) (notify-Plans s w (Alert.entries_refused problems))
                (λ done. persist-Plans s w) (unplanned s) v (refl, inl refl))
        | inr fresh ↦
            let checked : cfg.require_fresh_for_entries ≡ true → AreRecent cfg.budgets w =
              λ required. recent (nil_of problems (rw required at fresh)) in
            let planned = plan_entries-Plans s w v asked checked in
            let made = plan_entries svc cfg now (unplanned s) v in
            rw (plan_unless_stale, fresh)
              (elim (Outcome-cases made.0) [
                | inl (decisions, e) ↦ rw (◌>>=◌, e) (persist-Plans s w made.1 made.2 planned)
                | inr (x, e) ↦ rw (◌>>=◌, e) planned
              ])
      ]

  plan_if_fresh-asked :
      cfg.auto_enter ≡ true
      → (s : RuntimeContext F) (w : W)
      → plan_if_fresh svc cfg now s w
        ≡ (data_freshness_problems svc cfg now true >>= λ problems.
              plan_unless_stale svc cfg now problems)
            s w
  plan_if_fresh-asked asked s w =
      ap
        (λ b.
          (if not b
              then return tt
              else (data_freshness_problems svc cfg now true >>= λ problems.
                  plan_unless_stale svc cfg now problems))
            s w)
        asked

  -- Reading the stamps of the data changes nothing. Then the planning before the market opens leaves the
  -- book alone, and the earlier plan is gone. It leaves entries planned only if they are asked for, the
  -- killswitch is off, every critical data set is recent where that is required, each entry was
  -- accepted, and its ticker is neither held nor planned before. That is also so when the job raises.
  pub premarket_verify-Plans :
      ((v : W) → (svc.read_freshness v).1 ≡ v)
      → (s : RuntimeContext F) (w : W) → Plans s w (premarket_verify svc cfg now s w).1
  unfolding premarket_verify data_freshness_problems
  premarket_verify-Plans reads s w = elim (Bool-cases cfg.auto_enter) [
    | inr off ↦ rw (premarket_verify, off) (refl, inl refl)
    | inl asked ↦
        let ((problems, found), same) =
          data_freshness_problems-Checked svc cfg now true (unplanned s) w in
        let read = data_freshness_problems svc cfg now true (unplanned s) w in
        let first =
          >>=-run (data_freshness_problems svc cfg now true)
            (λ problems. plan_unless_stale svc cfg now problems) (unplanned s) w {a = problems}
            {t = unplanned s} {v = read.2} (λ i. (found i, same i, read.2)) in
        let checked : problems ≡ [] → AreRecent cfg.budgets w = λ none_found.
          (problems_of-AreRecent reads cfg.budgets [] (unplanned s) w
            (found ∙ ap ok none_found)).1 in
        rw (plan_if_fresh-asked asked (unplanned s) w ∙ first)
          (plan_unless_stale-Plans s w read.2 problems asked checked)
  ]
