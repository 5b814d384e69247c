-- ===== src/Execution/Proposals/Totality.antt =====
-- `propose_entries` of execution/decisions.py raises nothing.
use squeeze_hunter.Prelude.{
  Returns, ◌≡◌, refl, inl, inr, true, false, List, [], ◌∷◌, Outcome, ok, leb, get_or, Bool-cases,
  arith,
}
use squeeze_hunter.Prelude.Floats.{Floats, nought, ◌≼◌, IsOrdered, not-le-zero-ne-zero}
use squeeze_hunter.Setup.{Setup, is_weak}
use squeeze_hunter.Risk.Gates.{
  PortfolioState, GateContext, GateResult, evaluate_gates, TradeProposal, GateLimits,
}
use squeeze_hunter.Risk.Gates.Limits.{evaluate_gates-returns}
use squeeze_hunter.Risk.Kelly.{kelly_priors_for_setup}
use squeeze_hunter.Risk.Kelly.Bounds.{kelly_position_pct_bounds}
use squeeze_hunter.Execution.Proposals.{
  SetupStats, Candidate, EntrySettings, proposal, size_or, reserve, kelly_params, size_and_gate,
  propose_one, propose_entries,
}

module _ {F : Type 0} ⦃f : Floats F⦄ where
  accepted-solvent :
      (p : TradeProposal F) (ctx : GateContext F) (s : PortfolioState F) (lim : GateLimits F)
      (r : GateResult F)
      → evaluate_gates p ctx s lim ≡ ok r
      → r.accepted ≡ true
      → f.le s.equity_usd nought ≡ false
  unfolding evaluate_gates
  accepted-solvent p ctx s lim r e a = ground arith

module _ {F : Type 0} ⦃f : Floats F⦄ (laws : IsOrdered F) (ctx : GateContext F)
    (settings : EntrySettings F) where
  reserve-returns :
      (row : Candidate F) (size : F) (work : PortfolioState F)
      → f.le work.equity_usd nought ≡ false
      → Returns (reserve row size work)
  reserve-returns row size work solvent =
      rw (not-le-zero-ne-zero laws work.equity_usd solvent) (_, refl)

  size_and_gate-returns :
      (row : Candidate F) (work : PortfolioState F) (pct : F)
      → Returns (size_and_gate row work ctx settings pct)
  unfolding size_and_gate
  size_and_gate-returns row work pct =
      let target = f.mul work.equity_usd pct in
      elim (Bool-cases (is_weak row.setup_type)) [
        | inl weak ↦ rw (size_and_gate, weak) (_, refl)
        | inr strong ↦ elim (Bool-cases (f.le target nought)) [
          | inl empty ↦ rw (size_and_gate, strong, empty) (_, refl)
          | inr sized ↦
              let (g, gated) =
                evaluate_gates-returns laws (proposal row target) ctx work settings.limits in
              elim (Bool-cases g.accepted) [
                | inr left ↦ rw (size_and_gate, strong, sized, gated, left) (_, refl)
                | inl taken ↦
                    rw (size_and_gate, strong, sized, gated, taken)
                      (reserve-returns row (size_or g.adjusted_size_usd target) work (
                        accepted-solvent (proposal row target) ctx work settings.limits g gated
                          taken))
              ]
        ]
      ]

  -- A weak setup has a cap of zero, any other the position cap.
  cap_of :
      (setup : Setup)
      → nought ≼ settings.limits.position_cap
      → nought ≼ (kelly_params settings setup).cap
  unfolding kelly_priors_for_setup
  cap_of setup h = elim (Bool-cases (is_weak setup)) [
    | inl weak ↦ rw weak (laws.dec-IsNumber 0 0)
    | inr strong ↦ rw strong h
  ]

  propose_one-returns :
      (row : Candidate F) (work : PortfolioState F) (stats : Setup → Outcome (SetupStats F))
      → nought ≼ settings.limits.position_cap
      → ((s : Setup) → Returns (stats s))
      → Returns (propose_one row work ctx settings stats)
  unfolding propose_one
  propose_one-returns row work stats within known =
      elim (Bool-cases (leb settings.limits.max_new_per_day work.opened_today)) [
        | inl full ↦ rw (propose_one, full) (_, refl)
        | inr free ↦
            let params = kelly_params settings row.setup_type in
            let (s, counted) = known row.setup_type in
            let (pct, sized, _, _) =
              kelly_position_pct_bounds laws s.wins s.trades
                (get_or s.avg_payoff params.prior_payoff) params (cap_of row.setup_type within) in
            rw (propose_one, free, counted, sized) (size_and_gate-returns row work pct)
      ]

  -- If the position cap is not negative and the statistics of each setup can be had, every ranking is
  -- processed without an error, whatever the account (an equity of zero or less included).
  pub propose_entries-returns :
      (rows : List (Candidate F)) (work : PortfolioState F) (stats : Setup → Outcome (SetupStats F))
      → nought ≼ settings.limits.position_cap
      → ((s : Setup) → Returns (stats s))
      → Returns (propose_entries rows work ctx settings stats)
  unfolding propose_entries
  propose_entries-returns [] work stats within known = ([], refl)
  propose_entries-returns (row ∷ rows) work stats within known =
      let ((d, work'), first) = propose_one-returns row work stats within known in
      let (ds, rest) = propose_entries-returns rows work' stats within known in
      rw (propose_entries, first, rest) (_, refl)
