-- ===== src/Risk/Gates/Limits.antt =====
-- What an acceptance by the gates of risk/gates.py guarantees.
use squeeze_hunter.Prelude.{
  ◌+◌, ◌≤◌, ◌≡◌, ◌≢◌, ◌⊎◌, inl, inr, refl, Option-cases, true, false, none, some, Outcome, ok,
  raised, length, get_or, contains, arith,
}
use squeeze_hunter.Prelude.Dict.{lookup, has}
use squeeze_hunter.Prelude.Floats.{
  Floats, nought, of_nat, ◌≼◌, ◌≺◌, IsNumber, IsOrdered, le_of_not-lt, lt_of_not-le,
  not-le-zero-ne-zero,
}
use squeeze_hunter.Setup.{is_weak}
use squeeze_hunter.Risk.Gates.{
  TradeProposal, GateContext, PortfolioState, GateLimits, GateResult, adjusted_size, ticker_gates,
  size_gates, evaluate_gates,
}

module _ {F : Type 0} ⦃f : Floats F⦄ where
  -- The account with room for one more position of that size in that ticker.
  pub record HasRoom (p : TradeProposal F) (ctx : GateContext F) (s : PortfolioState F)
      (lim : GateLimits F) : Type 0 where
    pub switch_off : ctx.kill_switch_active ≡ false
    pub not_weak : is_weak p.setup_type ≡ false
    pub not_held : has p.ticker s.positions ≡ false
    pub day_room : s.opened_today + 1 ≤ lim.max_new_per_day
    pub book_room : length s.positions + 1 ≤ lim.max_positions
    pub seasoned : lim.min_days_listed ≤ get_or (lookup p.ticker ctx.days_listed_by_ticker) 0
    pub trading : contains p.ticker ctx.halted_tickers ≡ false
    pub eligible : contains p.ticker ctx.universe_tickers ≡ true

  -- An acceptance means that the killswitch is off, the setup is not weak, the ticker is not held, not
  -- halted, listed long enough and in the universe, and that one more position fits both counts.
  pub accepted-HasRoom :
      (p : TradeProposal F) (ctx : GateContext F) (s : PortfolioState F) (lim : GateLimits F)
      (r : GateResult F)
      → evaluate_gates p ctx s lim ≡ ok r
      → r.accepted ≡ true
      → HasRoom p ctx s lim
  unfolding evaluate_gates size_gates ticker_gates
  accepted-HasRoom p ctx s lim r e a = ground arith

module _ {F : Type 0} ⦃f : Floats F⦄ (laws : IsOrdered F) where
  abbrev pub share : PortfolioState F → F → F
  share s size = f.quotient size s.equity_usd

  abbrev pub capped : GateLimits F → F
  capped lim = f.mul lim.position_cap (f.add (of_nat 1) (f.dec 1 9))

  -- The amounts that the gates compare are numbers.
  pub record AreNumbers (s : PortfolioState F) (lim : GateLimits F) (size : F) : Type 0 where
    pub share_number : IsNumber (share s size)
    pub exposure_number : IsNumber (f.add s.gross_exposure_pct (share s size))
    pub cap_number : IsNumber (capped lim)
    pub limit_number : IsNumber lim.max_gross_exposure
    pub equity_number : IsNumber s.equity_usd

  -- The size that may be granted: the target, or half of it when earnings are near.
  abbrev pub IsReduced : TradeProposal F → GateContext F → F → Type 0
  IsReduced p ctx size =
      ((lookup p.ticker ctx.earnings_within_3_days ≡ some true)
        × (size ≡ f.mul p.target_position_usd (f.dec 5 1)))
      ⊎ ((lookup p.ticker ctx.earnings_within_3_days ≢ some true) × (size ≡ p.target_position_usd))

  adjusted_size-IsReduced :
      (p : TradeProposal F) (ctx : GateContext F) → IsReduced p ctx (adjusted_size p ctx)
  adjusted_size-IsReduced p ctx = elim (Option-cases (lookup p.ticker ctx.earnings_within_3_days)) [
    | inl e ↦ inr (rw e (λ c. cc), rw e refl)
    | inr (true, e) ↦ inl (e, rw e refl)
    | inr (false, e) ↦ inr (rw e (λ c. cc), rw e refl)
  ]

  accepted-size :
      (p : TradeProposal F) (ctx : GateContext F) (s : PortfolioState F) (lim : GateLimits F)
      (r : GateResult F)
      → evaluate_gates p ctx s lim ≡ ok r
      → r.accepted ≡ true
      → r.adjusted_size_usd ≡ some (adjusted_size p ctx)
  unfolding evaluate_gates size_gates ticker_gates
  accepted-size p ctx s lim r e a = ground arith

  -- An acceptance grants a size: the target, or half of it if earnings within three days are known of
  -- the ticker. If the equity, the caps and the shares that this size makes are numbers, the equity is
  -- positive, the size's share of it is within the position cap with its tolerance, and the gross
  -- exposure with the position added is within its limit.
  pub accepted_within_caps :
      (p : TradeProposal F) (ctx : GateContext F) (s : PortfolioState F) (lim : GateLimits F)
      (r : GateResult F)
      → ((size : F) → r.adjusted_size_usd ≡ some size → AreNumbers s lim size)
      → evaluate_gates p ctx s lim ≡ ok r
      → r.accepted ≡ true
      → (size : F) × (r.adjusted_size_usd ≡ some size)
        × IsReduced p ctx size
        × (nought ≺ s.equity_usd)
        × (share s size ≼ capped lim)
        × (f.add s.gross_exposure_pct (share s size) ≼ lim.max_gross_exposure)
  unfolding evaluate_gates size_gates
  accepted_within_caps p ctx s lim r numbers e a =
      let size = adjusted_size p ctx in
      let granted = accepted-size p ctx s lim r e a in
      let n = numbers size granted in
      let (solvent, capped_share, room) : (nought ≺ s.equity_usd)
          × (share s size ≼ capped lim)
          × (f.add s.gross_exposure_pct (share s size) ≼ lim.max_gross_exposure) =
        ground (
          arith,
          lt_of_not-le laws nought s.equity_usd (laws.dec-IsNumber 0 0) n.equity_number,
          le_of_not-lt laws (share s size) (capped lim) n.share_number n.cap_number,
          le_of_not-lt laws (f.add s.gross_exposure_pct (share s size)) lim.max_gross_exposure
              n.exposure_number n.limit_number,
        ) in
      (size, granted, adjusted_size-IsReduced p ctx, solvent, capped_share, room)

  abbrev returned : Outcome (GateResult F) → GateResult F
  returned (ok r) = r
  returned (raised _) = record { accepted = false; reason = none; adjusted_size_usd = none }

  -- No proposal and no account makes the gates raise, a zero or negative equity included.
  pub evaluate_gates-returns :
      (p : TradeProposal F) (ctx : GateContext F) (s : PortfolioState F) (lim : GateLimits F)
      → (r : GateResult F) × (evaluate_gates p ctx s lim ≡ ok r)
  unfolding evaluate_gates size_gates
  evaluate_gates-returns p ctx s lim =
      (returned (evaluate_gates p ctx s lim), ground (arith, not-le-zero-ne-zero laws s.equity_usd))
