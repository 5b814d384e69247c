-- ===== src/Runtime/Scan.antt =====
-- What the nightly scan of runtime.py leaves.
use squeeze_hunter.Prelude.{
  ◌≡◌, ◌⊎◌, refl, ap, inl, inr, Bool, false, ◌&&◌, not, some, List, [], ◌∷◌, ◌++◌, Outcome, ok,
  if◌then◌else◌, ◌==◌, contains, get_or, map, arith, Bool-cases, Option-cases,
}
use squeeze_hunter.Prelude.Dict.{Dict, lookup, has, insert, lookup-insert}
use squeeze_hunter.Prelude.Floats.{Floats}
use squeeze_hunter.Broker.{Ticker, Time}
use squeeze_hunter.Execution.Book.{Position, Book}
use squeeze_hunter.Execution.Proposals.{Candidate}
use squeeze_hunter.Runtime.{RuntimeContext, ◌>>=◌, call}
use squeeze_hunter.Runtime.Rules.{or_transient-Keeps, >>=-run}
use squeeze_hunter.Runtime.Services.{Services, RuntimeCfg, Problem}
use squeeze_hunter.Runtime.Persist.{persist, snapshot}
use squeeze_hunter.Runtime.Daily.{
  publish, with_book, scores_from, rescore, problems_of, data_freshness_problems, nightly_scan,
}

module _ {F : Type 0} where
  abbrev pub tickers : List (Candidate F) → List Ticker
  tickers rows = map (λ (c : Candidate F). c.ticker) rows

  -- The score of a ticker by a ranking: that of its last row, or the old one if it has none.
  abbrev pub IsLatest : Ticker → List (Candidate F) → F → F → Type 0
  IsLatest t ranked old score =
      ((contains t (tickers ranked) ≡ false) × (score ≡ old))
      ⊎ ((before : List (Candidate F)) × (c : Candidate F) × (after : List (Candidate F)) × (ranked
            ≡ before ++ c ∷ after)
          × (c.ticker ≡ t)
          × (contains t (tickers after) ≡ false)
          × (score ≡ c.score))

  scores_from-IsLatest :
      (t : Ticker) (ranked : List (Candidate F)) (scores : Dict F) (old : F)
      → IsLatest t ranked
          (get_or (lookup t scores) old)
          (get_or (lookup t (scores_from scores ranked)) old)
  scores_from-IsLatest t [] scores old = inl (refl, refl)
  scores_from-IsLatest t (c ∷ cs) scores old =
      let reads = lookup-insert t c.ticker c.score scores in
      elim (scores_from-IsLatest t cs (insert c.ticker c.score scores) old) [
        | inr (before, d, after, split, same, absent, e) ↦
            inr (
              c ∷ before,
              d,
              after,
              ap (λ (xs : List (Candidate F)). c ∷ xs) split,
              same,
              absent,
              e,
            )
        | inl (absent, same) ↦ elim (Bool-cases (t == c.ticker)) [
          | inl here ↦ inr ([], c, cs, refl, ground arith, absent, rw (reads, here) at same)
          | inr other ↦ inl (rw other absent, rw (reads, other) at same)
        ]
      ]

  lookup-rescore :
      (t : Ticker) (scores : Dict F) (book : Book F) (meta : Position F)
      → lookup t book ≡ some meta
      → lookup t (rescore scores book)
        ≡ some (record meta { current_score = get_or (lookup t scores) meta.current_score })
  lookup-rescore t scores [] meta e = cc
  lookup-rescore t scores ((u, held) ∷ book) meta e =
      ground (arith, lookup-rescore t scores book meta)

  has-rescore :
      (t : Ticker) (scores : Dict F) (book : Book F) → has t (rescore scores book) ≡ has t book
  has-rescore t scores [] = refl
  has-rescore t scores (e ∷ book) = ground (arith, has-rescore t scores book)

module _ {F Stamp W : Type 0} ⦃f : Floats F⦄ (svc : Services F Stamp W) (cfg : RuntimeCfg F) where
  -- The check of the data returns, and changes nothing of the daemon.
  abbrev pub Checked : RuntimeContext F → Outcome (List (Problem F)) × RuntimeContext F × W → Type 0
  Checked s o = ((problems : List (Problem F)) × (o.0 ≡ ok problems)) × (o.1 ≡ s)

  problems_of-Checked :
      (now : Time) (critical_only : Bool) (budgets : Dict F) (found : List (Problem F))
      (s : RuntimeContext F) (w : W)
      → Checked s (problems_of svc cfg now critical_only budgets found s w)
  problems_of-Checked now critical_only [] found s w = ((found, refl), refl)
  problems_of-Checked now critical_only ((dataset, budget) ∷ budgets) found s w =
      elim (Bool-cases (critical_only && not (contains dataset cfg.critical_datasets))) [
        | inl skipped ↦
            rw (problems_of, skipped) (problems_of-Checked now critical_only budgets found s w)
        | inr checked ↦
            rw (problems_of, checked) (problems_of-Checked now critical_only budgets _ s _)
      ]

  pub data_freshness_problems-Checked :
      (now : Time) (critical_only : Bool) (s : RuntimeContext F) (w : W)
      → Checked s (data_freshness_problems svc cfg now critical_only s w)
  unfolding data_freshness_problems
  data_freshness_problems-Checked now critical_only s w =
      problems_of-Checked now critical_only cfg.budgets [] s w

  pub persist-state : (s : RuntimeContext F) (w : W) → (persist svc s w).1 ≡ s
  unfolding persist
  persist-state s w = elim (Option-cases svc.save) [
    | inl e ↦ rw (persist, e) refl
    | inr (save, e) ↦
        rw (persist, e)
          (or_transient-Keeps (λ t v. t ≡ s) (call (save (snapshot svc s))) tt (λ t v h. h) s w
            refl)
  ]

  -- The daemon after a scan.
  abbrev scanned : List (Candidate F) → RuntimeContext F → RuntimeContext F
  scanned ranked s =
      with_book (rescore (scores_from [] ranked) s.lifecycle.positions)
        (record s { last_candidates = some (if s.killswitch.active then [] else ranked) })

  nightly_scan-state :
      (now : Time) (s : RuntimeContext F) (w : W) (ranked : List (Candidate F))
      → (svc.run_scan now (data_freshness_problems svc cfg now false s w).2).0 ≡ ok ranked
      → (nightly_scan svc cfg now s w).1 ≡ scanned ranked s
  unfolding nightly_scan
  nightly_scan-state now s w ranked e =
      let ((problems, done), same) = data_freshness_problems-Checked now false s w in
      let read = data_freshness_problems svc cfg now false s w in
      let first =
        >>=-run (data_freshness_problems svc cfg now false)
          (λ found. call (svc.run_scan now) >>= publish svc) s w {a = problems} {t = s} {v = read.2}
          (λ i. (done i, same i, read.2)) in
      let second =
        >>=-run (call (svc.run_scan now)) (publish svc) s read.2 {a = ranked} {t = s}
          {v = (svc.run_scan now read.2).1} (λ i. (e i, s, (svc.run_scan now read.2).1)) in
      rw (first, second) (persist-state (scanned ranked s) (svc.run_scan now read.2).1)

  -- When the scan returns a ranking, the nightly job publishes it, or no candidate at all while the
  -- killswitch is active. In both cases every held ticker stays held, and each position gets the score
  -- of the ranking, or keeps its own if it was not ranked; nothing else of it changes.
  pub nightly_scan-rescored :
      (now : Time) (s : RuntimeContext F) (w : W) (ranked : List (Candidate F))
      → (svc.run_scan now (data_freshness_problems svc cfg now false s w).2).0 ≡ ok ranked
      → let s' = (nightly_scan svc cfg now s w).1 in
        (s'.last_candidates ≡ some (if s.killswitch.active then [] else ranked))
        × ((t : Ticker) → has t s'.lifecycle.positions ≡ has t s.lifecycle.positions)
        × ((t : Ticker) (meta : Position F)
            → lookup t s.lifecycle.positions ≡ some meta
            → (score : F) × (lookup t s'.lifecycle.positions
                ≡ some (record meta { current_score = score }))
              × IsLatest t ranked meta.current_score score)
  nightly_scan-rescored now s w ranked e =
      let scores = scores_from [] ranked in
      rw (nightly_scan-state now s w ranked e) (
        refl,
        (λ t. has-rescore t scores s.lifecycle.positions),
        λ t meta held. (
          get_or (lookup t scores) meta.current_score,
          lookup-rescore t scores s.lifecycle.positions meta held,
          scores_from-IsLatest t ranked [] meta.current_score,
        ),
      )
