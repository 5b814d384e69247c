-- ===== src/Tests/Telemetry.antt =====
-- telemetry.py on a day with a high and a later low.
use squeeze_hunter.Prelude.{◌≤◌, refl, some, [], ◌∷◌, arith, Returns}
use squeeze_hunter.Prelude.Fixed.{Fixed, fixed_floats, Fixed-IsOrdered}
use squeeze_hunter.Risk.Killswitch.{day}
use squeeze_hunter.Telemetry.{
  PortfolioTelemetry, date, seconds_since, record_equity, clamp_freshness_to,
  broker_disconnected_for_seconds, critical_data_stale_for_seconds, to_killswitch_inputs,
}
use squeeze_hunter.Telemetry.Peaks.{run, HasPeak, record_equity-run-HasPeak}
use squeeze_hunter.Telemetry.Outages.{clamp_freshness_to-outages, to_killswitch_inputs-Returns}

-- The heartbeat is older than the floor; of the two sources one is critical.
abbrev pub telemetry : PortfolioTelemetry Fixed
telemetry = record {
  equity_history = [];
  equity_peak_per_day = [];
  position_marks = (1, (fixed_floats.dec 0 0, fixed_floats.dec 8 0)) ∷ [];
  last_broker_heartbeat = some 1_000_000;
  data_freshness = (3, 2_000_000) ∷ (4, 0) ∷ [];
  critical_sources = 3 ∷ [];
}

record_equity-run-HasPeak_example : HasPeak (date 50) (fixed_floats.dec 900 0) (
    run
      ((60, fixed_floats.dec 700 0) ∷ (day, fixed_floats.dec 800 0) ∷ [])
      (record_equity 50 (fixed_floats.dec 900 0) telemetry))
record_equity-run-HasPeak_example =
    record_equity-run-HasPeak Fixed-IsOrdered 50 (fixed_floats.dec 900 0)
      ((60, fixed_floats.dec 700 0) ∷ (day, fixed_floats.dec 800 0) ∷ []) telemetry refl refl
      ((omega arith, refl), ((omega arith, refl), tt))

clamp_freshness_to-outages_example :
    (broker_disconnected_for_seconds 70_000_000 (clamp_freshness_to 40_000_000 telemetry)
      ≤ seconds_since 40_000_000 70_000_000)
    × (critical_data_stale_for_seconds 70_000_000 (clamp_freshness_to 40_000_000 telemetry)
        ≤ seconds_since 40_000_000 70_000_000)
clamp_freshness_to-outages_example = clamp_freshness_to-outages 40_000_000 70_000_000 telemetry

to_killswitch_inputs-Returns_example :
    Returns (to_killswitch_inputs (λ ts. ts) 70_000_000 telemetry)
to_killswitch_inputs-Returns_example =
    to_killswitch_inputs-Returns Fixed-IsOrdered (λ ts. ts) 70_000_000 telemetry
