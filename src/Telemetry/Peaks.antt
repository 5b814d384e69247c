-- ===== src/Telemetry/Peaks.antt =====
-- telemetry.py keeps the highest equity of each day, and reports its metrics without an error.
use squeeze_hunter.Prelude.{
  ◌+◌, ◌-◌, ◌≤◌, ◌==◌, Bool-cases, inl, inr, ◌≡◌, refl, none, some, List, [], ◌∷◌, if◌then◌else◌,
  length, length-drop, leb, get_or, All, arith,
}
use squeeze_hunter.Prelude.Dict.{Dict, lookup, insert, lookup-insert}
use squeeze_hunter.Prelude.Floats.{fmax, Floats, ◌≼◌, IsNumber, IsOrdered, le-fmax}
use squeeze_hunter.Broker.{Time}
use squeeze_hunter.Data.{Date}
use squeeze_hunter.Telemetry.{PortfolioTelemetry, date, last_sixty, recent_days, record_equity}

module _ {F : Type 0} where
  lookup-recent_days :
      (d today : Date) (peaks : Dict F)
      → lookup d (recent_days today peaks) ≡ (if leb today (d + 90) then lookup d peaks else none)
  lookup-recent_days d today [] = ground arith
  lookup-recent_days d today (e ∷ peaks) = ground (arith, lookup-recent_days d today peaks)

  length-last_sixty : (es : List (Time × F)) → length (last_sixty es) ≤ 60
  length-last_sixty es = ground (arith, length-drop (length es - 60) es)

module _ {F : Type 0} ⦃f : Floats F⦄ where
  pub run : List (Time × F) → PortfolioTelemetry F → PortfolioTelemetry F
  run [] t = t
  run ((ts, equity) ∷ readings) t = run readings (record_equity ts equity t)

  abbrev pub HasPeak : Date → F → PortfolioTelemetry F → Type 0
  HasPeak d equity t = (p : F) × (lookup d t.equity_peak_per_day ≡ some p) × (equity ≼ p)

module _ {F : Type 0} ⦃f : Floats F⦄ (laws : IsOrdered F) where
  record_equity-HasPeak :
      (d : Date) (equity : F) (ts : Time) (later : F) (t : PortfolioTelemetry F)
      → date ts ≤ d + 90
      → IsNumber later
      → HasPeak d equity t
      → HasPeak d equity (record_equity ts later t)
  unfolding record_equity
  record_equity-HasPeak d equity ts later t near n (p, e, h) =
      let old = lookup-recent_days d (date ts) in
      let best = get_or (lookup (date ts) t.equity_peak_per_day) later in
      let written = lookup-insert d (date ts) (fmax best later) t.equity_peak_per_day in
      let kept = old (insert (date ts) (fmax best later) t.equity_peak_per_day) in
      elim (Bool-cases (d == date ts)) [
        | inl today ↦
            let same : date ts ≡ d = ground arith in
            let here : best ≡ p = rw (same, e) refl in
            let (above, _, _) = le-fmax laws p later (laws.number_of_le equity p h).1 n in
            (
              fmax best later,
              ground (arith, kept, written),
              rw here (laws.le_trans equity p _ h above),
            )
        | inr other ↦ (p, ground (arith, kept, written), h)
      ]

  record_equity-HasPeak_today :
      (ts : Time) (equity : F) (t : PortfolioTelemetry F)
      → IsNumber equity
      → IsNumber (get_or (lookup (date ts) t.equity_peak_per_day) equity)
      → HasPeak (date ts) equity (record_equity ts equity t)
  unfolding record_equity
  record_equity-HasPeak_today ts equity t n m =
      let best = get_or (lookup (date ts) t.equity_peak_per_day) equity in
      let kept =
        lookup-recent_days (date ts) (date ts)
          (insert (date ts) (fmax best equity) t.equity_peak_per_day) in
      let written = lookup-insert (date ts) (date ts) (fmax best equity) t.equity_peak_per_day in
      let (_, covered, _) = le-fmax laws best equity m n in
      (fmax best equity, ground (arith, kept, written), covered)

  run-HasPeak :
      (d : Date) (equity : F) (readings : List (Time × F)) (t : PortfolioTelemetry F)
      → All (λ r. (date r.0 ≤ d + 90) × IsNumber r.1) readings
      → HasPeak d equity t
      → HasPeak d equity (run readings t)
  unfolding run
  run-HasPeak d equity [] t ok_readings h = h
  run-HasPeak d equity ((ts, later) ∷ readings) t ((near, n), rest) h =
      run-HasPeak d equity readings (record_equity ts later t) rest
        (record_equity-HasPeak d equity ts later t near n h)

  -- An equity that is recorded is covered by the recorded peak of its day, and stays so over any run
  -- of later readings of the next ninety days, lower ones of the same day included. All readings are
  -- numbers, and so is the peak that the day had before, if any.
  pub record_equity-run-HasPeak :
      (ts : Time) (equity : F) (readings : List (Time × F)) (t : PortfolioTelemetry F)
      → IsNumber equity
      → IsNumber (get_or (lookup (date ts) t.equity_peak_per_day) equity)
      → All (λ r. (date r.0 ≤ date ts + 90) × IsNumber r.1) readings
      → HasPeak (date ts) equity (run readings (record_equity ts equity t))
  record_equity-run-HasPeak ts equity readings t n m later =
      run-HasPeak (date ts) equity readings (record_equity ts equity t) later
        (record_equity-HasPeak_today ts equity t n m)
