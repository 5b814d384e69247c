-- ===== src/Telemetry/Outages.antt =====
-- The outage arms of telemetry.py measure time within the session, and no metric raises.
use squeeze_hunter.Prelude.{
  last, ◌≤◌, ◌≡◌, refl, inl, inr, Bool-cases, Option-cases, Option, none, some, List, [], ◌∷◌,
  Returns, if◌then◌else◌, arith,
}
use squeeze_hunter.Prelude.Dict.{Dict}
use squeeze_hunter.Prelude.Floats.{Floats, nought, IsOrdered, not-le-zero-ne-zero}
use squeeze_hunter.Broker.{Time}
use squeeze_hunter.Telemetry.{
  PortfolioTelemetry, Source, seconds_since, raise_stamp, raise_stamps, outage_of, oldest,
  clamp_freshness_to, broker_disconnected_for_seconds, critical_data_stale_for_seconds,
  drawdown_from, drawdown_of_history, drawdown_of_peaks, rolling_30d_max_drawdown, readings_since,
  change_over, last_3_days_cumulative_pnl_pct, worst_gap_from, worst_position_gap_pct,
  to_killswitch_inputs,
}

-- The outage of a stamp that is missing or at least the floor.
outage_of-le :
    (floor as_of : Time) (stamp : Option Time)
    → ((ts : Time) → stamp ≡ some ts → floor ≤ ts)
    → outage_of stamp as_of ≤ seconds_since floor as_of
outage_of-le floor as_of none h = omega arith
outage_of-le floor as_of (some ts) h = let above = h ts refl in omega arith

raise_stamp-le :
    (floor : Time) (stamp : Option Time) (ts : Time)
    → raise_stamp floor stamp ≡ some ts
    → floor ≤ ts
raise_stamp-le floor none ts e = cc
raise_stamp-le floor (some old) ts e = ground arith

oldest-le :
    (floor : Time) (critical : List Source) (stamps : Dict Time) (ts : Time)
    → oldest critical (raise_stamps floor stamps) ≡ some ts
    → floor ≤ ts
oldest-le floor critical [] ts e = cc
oldest-le floor critical (x ∷ stamps) ts e =
    elim (Option-cases (oldest critical (raise_stamps floor stamps))) [
      | inl none_left ↦ ground arith
      | inr (older, found) ↦ let above = oldest-le floor critical stamps older found in ground arith
    ]

module _ {F : Type 0} where
  -- Once the stamps are raised to a floor, neither the broker's outage nor that of the critical data
  -- is reported longer than the time since the floor.
  pub clamp_freshness_to-outages :
      (floor as_of : Time) (t : PortfolioTelemetry F)
      → let t' = clamp_freshness_to floor t in
        (broker_disconnected_for_seconds as_of t' ≤ seconds_since floor as_of)
        × (critical_data_stale_for_seconds as_of t' ≤ seconds_since floor as_of)
  unfolding clamp_freshness_to broker_disconnected_for_seconds critical_data_stale_for_seconds
  clamp_freshness_to-outages floor as_of t = (
    outage_of-le floor as_of (raise_stamp floor t.last_broker_heartbeat)
        (raise_stamp-le floor t.last_broker_heartbeat),
    outage_of-le floor as_of (oldest t.critical_sources (raise_stamps floor t.data_freshness))
        (oldest-le floor t.critical_sources t.data_freshness),
  )

module _ {F : Type 0} ⦃f : Floats F⦄ (laws : IsOrdered F) where
  drawdown_from-Returns : (current peak : F) → Returns (drawdown_from current peak)
  drawdown_from-Returns current peak = elim (Bool-cases (f.le peak nought)) [
    | inl low ↦ rw low (nought, refl)
    | inr high ↦ rw (high, not-le-zero-ne-zero laws peak high) (_, refl)
  ]

  drawdown_of_history-Returns :
      (current : F) (recent : List (Time × F)) → Returns (drawdown_of_history current recent)
  drawdown_of_history-Returns current [] = (nought, refl)
  drawdown_of_history-Returns current (e ∷ []) = (nought, refl)
  drawdown_of_history-Returns current (e ∷ e' ∷ es) = drawdown_from-Returns current _

  drawdown_of_peaks-Returns :
      (current : F) (recent : List (Time × F)) (peaks : List F)
      → Returns (drawdown_of_peaks current recent peaks)
  drawdown_of_peaks-Returns current recent [] = drawdown_of_history-Returns current recent
  drawdown_of_peaks-Returns current recent (p ∷ ps) = drawdown_from-Returns current _

  rolling_30d_max_drawdown-Returns :
      (as_of : Time) (t : PortfolioTelemetry F) → Returns (rolling_30d_max_drawdown as_of t)
  unfolding rolling_30d_max_drawdown
  rolling_30d_max_drawdown-Returns as_of t = elim (Option-cases (last t.equity_history)) [
    | inl empty ↦ rw (rolling_30d_max_drawdown, empty) (nought, refl)
    | inr (e, found) ↦ rw (rolling_30d_max_drawdown, found) (drawdown_of_peaks-Returns e.1 _ _)
  ]

  change_over-Returns : (es : List (Time × F)) → Returns (change_over es)
  change_over-Returns [] = (nought, refl)
  change_over-Returns (e ∷ []) = (nought, refl)
  change_over-Returns (e ∷ e' ∷ es) = elim (Bool-cases (f.le e.1 nought)) [
    | inl low ↦ rw low (nought, refl)
    | inr high ↦ elim (Option-cases (last (e' ∷ es))) [
      | inl none_left ↦ rw (high, none_left) (nought, refl)
      | inr (end, found) ↦ rw (high, found, not-le-zero-ne-zero laws e.1 high) (_, refl)
    ]
  ]

  worst_gap_from-Returns : (worst : F) (marks : Dict (F × F)) → Returns (worst_gap_from worst marks)
  unfolding worst_gap_from
  worst_gap_from-Returns worst [] = (worst, refl)
  worst_gap_from-Returns worst ((t, (entry, mark)) ∷ marks) =
      elim (Bool-cases (f.le entry nought)) [
        | inl bad ↦ rw bad (worst_gap_from-Returns worst marks)
        | inr good ↦
            let gap = f.quotient (f.sub mark entry) entry in
            rw (good, not-le-zero-ne-zero laws entry good)
              (worst_gap_from-Returns (if f.lt gap worst then gap else worst) marks)
      ]

  -- Whatever has been recorded, an equity, a peak or an entry price of zero included, the inputs of
  -- the killswitch are had without an error.
  pub to_killswitch_inputs-Returns :
      (bdays : Time → Time) (as_of : Time) (t : PortfolioTelemetry F)
      → Returns (to_killswitch_inputs bdays as_of t)
  unfolding to_killswitch_inputs last_3_days_cumulative_pnl_pct worst_position_gap_pct
  to_killswitch_inputs-Returns bdays as_of t =
      let (drawdown, d) = rolling_30d_max_drawdown-Returns as_of t in
      let (loss, l) = change_over-Returns (readings_since (bdays as_of) t.equity_history) in
      let (gap, g) = worst_gap_from-Returns nought t.position_marks in rw (d, l, g) (_, refl)
