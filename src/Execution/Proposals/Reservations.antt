-- ===== src/Execution/Proposals/Reservations.antt =====
-- `propose_entries` of execution/decisions.py reserves a slot for each candidate that it accepts.
use squeeze_hunter.Prelude.{
  ◌&&◌, ℕ, ◌+◌, ◌≤◌, ◌≡◌, ◌⊎◌, inl, inr, refl, Bool, true, false, List, [], ◌∷◌, Outcome, ok,
  >>=-eq-ok, if◌then◌else◌, length, length-append, map, arith, Bool-cases, leb, max,
}
use mathlib.Core.Path.{subst}
use squeeze_hunter.Prelude.Dict.{Dict, has, insert, insert_new}
use squeeze_hunter.Prelude.Floats.{Floats, nought}
use squeeze_hunter.Broker.{Ticker}
use squeeze_hunter.Setup.{Setup, is_weak}
use squeeze_hunter.Risk.Gates.{PortfolioState, GateContext, GateResult, evaluate_gates}
use squeeze_hunter.Risk.Gates.Limits.{accepted-HasRoom}
use squeeze_hunter.Risk.Kelly.{kelly_position_pct}
use squeeze_hunter.Execution.Proposals.{
  SetupStats, EntryDecision, Candidate, EntrySettings, proposal, settle, size_and_gate, propose_one,
  propose_entries,
}

module _ {F : Type 0} where
  -- Every accepted ticker is new at its turn: not among the held ones, nor accepted before.
  abbrev pub IsFresh : Dict ℕ → List (EntryDecision F) → Type 0
  IsFresh held [] = Unit
  IsFresh held (d ∷ ds) =
      ((d.accepted && has d.ticker held) ≡ false)
      × IsFresh (if d.accepted then insert d.ticker 0 held else held) ds

module _ {F : Type 0} ⦃f : Floats F⦄ (ctx : GateContext F) (settings : EntrySettings F) where
  -- One candidate handled: declined, with the state as it was, or accepted in a slot of its own.
  abbrev pub Declined : PortfolioState F → EntryDecision F → PortfolioState F → Type 0
  Declined work d work' = (d.accepted ≡ false) × (work' ≡ work)

  pub record Accepted (work : PortfolioState F) (d : EntryDecision F) (work' : PortfolioState F)
      : Type 0 where
    pub taken : d.accepted ≡ true
    pub switch_off : ctx.kill_switch_active ≡ false
    pub not_held : has d.ticker work.positions ≡ false
    pub day_room : work.opened_today + 1 ≤ settings.limits.max_new_per_day
    pub book_room : length work.positions + 1 ≤ settings.limits.max_positions
    pub counted : work'.opened_today ≡ work.opened_today + 1
    pub filed : work'.positions ≡ insert d.ticker 0 work.positions

  abbrev pub Handled : Candidate F → PortfolioState F → EntryDecision F → PortfolioState F → Type 0
  Handled row work d work' =
      (d.ticker ≡ row.ticker) × (Declined work d work' ⊎ Accepted work d work')

  settle-Handled :
      (row : Candidate F) (target : F) (work : PortfolioState F) (g : GateResult F)
      (d : EntryDecision F) (work' : PortfolioState F)
      → evaluate_gates (proposal row target) ctx work settings.limits ≡ ok g
      → settle row target work g ≡ ok (d, work')
      → Handled row work d work'
  settle-Handled row target work g d work' gated e = elim (Bool-cases g.accepted) [
    | inl taken ↦
        let room = accepted-HasRoom (proposal row target) ctx work settings.limits g gated taken in
        ground arith
    | inr left ↦ ground arith
  ]

  size_and_gate-Handled :
      (row : Candidate F) (work : PortfolioState F) (pct : F) (d : EntryDecision F)
      (work' : PortfolioState F)
      → size_and_gate row work ctx settings pct ≡ ok (d, work')
      → Handled row work d work'
  unfolding size_and_gate
  size_and_gate-Handled row work pct d work' e =
      let target = f.mul work.equity_usd pct in
      elim (Bool-cases (is_weak row.setup_type)) [
        | inl weak ↦ ground arith
        | inr strong ↦ elim (Bool-cases (f.le target nought)) [
          | inl empty ↦ ground arith
          | inr sized ↦
              let (g, gated, settled) =
                >>=-eq-ok (evaluate_gates (proposal row target) ctx work settings.limits) _
                  (rw (strong, sized) at e) in
              settle-Handled row target work g d work' gated settled
        ]
      ]

  pub propose_one-Handled :
      (row : Candidate F) (work : PortfolioState F) (stats : Setup → Outcome (SetupStats F))
      (d : EntryDecision F) (work' : PortfolioState F)
      → propose_one row work ctx settings stats ≡ ok (d, work')
      → Handled row work d work'
  unfolding propose_one
  propose_one-Handled row work stats d work' e =
      elim (Bool-cases (leb settings.limits.max_new_per_day work.opened_today)) [
        | inl full ↦ ground arith
        | inr free ↦
            let (s, _, counted) = >>=-eq-ok (stats row.setup_type) _ (rw free at e) in
            let (pct, _, handled) = >>=-eq-ok (kelly_position_pct s.wins s.trades _ _) _ counted in
            size_and_gate-Handled row work pct d work' handled
      ]

  abbrev one_if : Bool → ℕ
  one_if b = if b then 1 else 0

  abbrev pub accepted_count : List (EntryDecision F) → ℕ
  accepted_count [] = 0
  accepted_count (d ∷ ds) = one_if d.accepted + accepted_count ds

  -- What the decisions on a whole ranking keep, from a state within its counts.
  pub record IsWithin (rows : List (Candidate F)) (work : PortfolioState F)
      (ds : List (EntryDecision F)) : Type 0 where
    pub one_each : map (λ d. d.ticker) ds ≡ map (λ r. r.ticker) rows
    pub day_count :
        work.opened_today + accepted_count ds
        ≤ max settings.limits.max_new_per_day work.opened_today
    pub book_count :
        length work.positions + accepted_count ds
        ≤ max settings.limits.max_positions (length work.positions)
    pub none_when_killed : (if ctx.kill_switch_active then accepted_count ds else 0) ≡ 0
    pub fresh : IsFresh work.positions ds

  length-insert :
      (t : Ticker) (held : Dict ℕ) → has t held ≡ false → length (insert t 0 held) ≡ length held + 1
  length-insert t held h =
      rw (insert_new t 0 held h) (omega (arith, length-append held ((t, 0) ∷ [])))

  step-IsWithin :
      (row : Candidate F) (rows : List (Candidate F)) (work work' : PortfolioState F)
      (d : EntryDecision F) (ds : List (EntryDecision F))
      → Handled row work d work'
      → IsWithin rows work' ds
      → IsWithin (row ∷ rows) work (d ∷ ds)
  step-IsWithin row rows work work' d ds (same, inl (declined, kept)) ih = record {
    one_each = ground (arith, ih.one_each);
    day_count = ground (arith, ih.day_count);
    book_count = ground (arith, ih.book_count);
    none_when_killed = ground (arith, ih.none_when_killed);
    fresh = (ground arith, rw declined (subst (λ w. IsFresh w.positions ds) kept ih.fresh));
  }
  step-IsWithin row rows work work' d ds (same, inr a) ih = record {
    one_each = ground (arith, ih.one_each);
    day_count = ground (arith, ih.day_count);
    book_count = ground (arith, ih.book_count, length-insert d.ticker work.positions a.not_held);
    none_when_killed = ground (arith, ih.none_when_killed);
    fresh =
        (ground (arith, a.not_held), rw a.taken (subst (λ held. IsFresh held ds) a.filed ih.fresh));
  }

  -- A ranking that is processed without an error gets one decision for each candidate, in order. The
  -- acceptances keep the day's openings and the number of positions within their limits (or at what
  -- they were, if that is more), there are none while the killswitch is active, and no ticker is
  -- accepted that is held or was accepted before.
  pub propose_entries-IsWithin :
      (rows : List (Candidate F)) (work : PortfolioState F) (stats : Setup → Outcome (SetupStats F))
      (all : List (EntryDecision F))
      → propose_entries rows work ctx settings stats ≡ ok all
      → IsWithin rows work all
  unfolding propose_entries
  propose_entries-IsWithin [] work stats all e =
      let none_left : [] ≡ all = ground arith in
      subst (IsWithin [] work) none_left (record {
        one_each = refl;
        day_count = omega arith;
        book_count = omega arith;
        none_when_killed = ground arith;
        fresh = tt;
      })
  propose_entries-IsWithin (row ∷ rows) work stats all e =
      let ((d, work'), first, then_rest) =
        >>=-eq-ok (propose_one row work ctx settings stats) _ e in
      let (ds, rest, same) =
        >>=-eq-ok (propose_entries rows work' ctx settings stats) _ then_rest in
      subst (IsWithin (row ∷ rows) work) (ground arith) (
        step-IsWithin row rows work work' d ds (propose_one-Handled row work stats d work' first)
          (propose_entries-IsWithin rows work' stats ds rest))
