-- ===== src/Execution/Entries/Plan.antt =====
-- `plan` of execution/entries.py: sizing last night's candidates before the market opens.
use squeeze_hunter.Prelude.{
  ℕ, ◌+◌, ◌-◌, ◌*◌, ◌/◌, Bool, none, some, List, [], ◌∷◌, Outcome, ok, raised, ◌>>=◌, if◌then◌else◌,
  get_or, keep,
}
use squeeze_hunter.Prelude.Dict.{Dict, lookup}
use squeeze_hunter.Prelude.Floats.{Floats, nought, of_nat, divide}
use squeeze_hunter.Broker.{Ticker, Time}
use squeeze_hunter.Risk.Killswitch.{day}
use squeeze_hunter.Risk.Gates.{PortfolioState, GateContext}
use squeeze_hunter.Execution.Book.{Position, Book}
use squeeze_hunter.Execution.Proposals.{
  SetupStats, EntryDecision, Candidate, EntrySettings, propose_entries,
}
use squeeze_hunter.Execution.Lifecycle.{BrokerCalls, is_transient}
use squeeze_hunter.Execution.Entries.{EntryPath, EntryCfg}

module _ {F : Type 0} where
  abbrev pub quantities : Book F → Dict ℕ
  quantities [] = []
  quantities ((t, meta) ∷ book) = (t, meta.qty) ∷ quantities book

  -- The last moment of the calendar day before, by the date in New York.
  abbrev pub last_session_end : EntryCfg F → Time → Time
  last_session_end cfg now = (cfg.wall now / day - 1) * day + (day - 1)

module _ {F : Type 0} ⦃f : Floats F⦄ where
  -- A ticker's mark, or its entry price.
  abbrev mark_of : Dict (F × F) → Ticker → Position F → F
  mark_of marks t meta = (get_or (lookup t marks) (meta.entry_price, meta.entry_price)).1

  abbrev pub gross_from : F → Dict (F × F) → Book F → F
  gross_from acc marks [] = acc
  gross_from acc marks ((t, meta) ∷ book) =
      gross_from (f.add acc (f.mul (mark_of marks t meta) (of_nat meta.qty))) marks book

  -- The account before the day's first entry.
  abbrev pub account : F → Dict (F × F) → Book F → Outcome (PortfolioState F)
  account equity marks book =
      let gross = gross_from nought marks book in
      divide gross equity >>= λ pct. ok (record {
        equity_usd = equity;
        cash_usd = f.sub equity gross;
        gross_exposure_pct = pct;
        positions = quantities book;
        opened_today = 0;
      })

  -- No realized trades are kept live.
  abbrev pub no_stats : SetupStats F
  no_stats = record { wins = 0; trades = 0; avg_payoff = none }

-- `gate_context` is `build_gate_context` over the cache at a time; `append_decisions` writes the log.
module _ {F W : Type 0} ⦃f : Floats F⦄ (b : BrokerCalls F W) (cfg : EntryCfg F)
    (settings : EntrySettings F) (gate_context : Time → Outcome (GateContext F))
    (append_decisions : Time → List (EntryDecision F) → W → Outcome (Unit {0}) × W)
    (now : Time) where
  -- The decisions for an account with some equity, noted in the log. The accepted ones are planned.
  unfoldable pub plan_with :
      List (Candidate F)
      → GateContext F
      → F
      → EntryPath F
      → W
      → Outcome (List (EntryDecision F)) × EntryPath F × W
  plan_with candidates ctx equity s w =
      elim (account equity s.telemetry.position_marks s.book >>= λ state.
      propose_entries candidates state ctx settings (λ setup. ok no_stats)) [
        | raised e ↦ (raised e, s, w)
        | ok decisions ↦
            let (r, w') = append_decisions now decisions w in
            elim r [
              | raised e ↦ (raised e, s, w')
              | ok done ↦
                  (ok decisions, record s { planned = keep (λ d. d.accepted) decisions }, w')
            ]
      ]

  unfoldable pub plan_candidates :
      List (Candidate F) → EntryPath F → W → Outcome (List (EntryDecision F)) × EntryPath F × W
  plan_candidates candidates s w = elim (gate_context (last_session_end cfg now)) [
    | raised e ↦ (raised e, s, w)
    | ok ctx ↦
        let (r, w') = b.get_equity_usd w in
        elim r [
          | raised e ↦ if is_transient e then (ok [], s, w') else (raised e, s, w')
          | ok none ↦ (ok [], s, w')
          | ok (some equity) ↦
              if f.le equity nought then (ok [], s, w') else plan_with candidates ctx equity s w'
        ]
  ]

  -- `plan`, with a broker. The earlier plan is dropped first.
  unfoldable pub plan :
      List (Candidate F)
      → Bool
      → EntryPath F
      → W
      → Outcome (List (EntryDecision F)) × EntryPath F × W
  plan candidates kill_active s w =
      let s' = record s { planned = [] } in
      if kill_active
      then (ok [], s', w)
      else elim candidates [ [] ↦ (ok [], s', w) | c ∷ cs ↦ plan_candidates (c ∷ cs) s' w ]
