-- ===== src/Runtime/Daily.antt =====
-- The daily jobs of runtime.py: the nightly scan, the close, and the planning before the market opens.
use squeeze_hunter.Prelude.{
  ◌+◌, ◌/◌, Bool, true, false, not, ◌&&◌, Option, none, some, List, [], ◌∷◌, ◌++◌, ok,
  if◌then◌else◌, contains, get_or,
}
use squeeze_hunter.Prelude.Dict.{Dict, lookup, insert}
use squeeze_hunter.Prelude.Floats.{Floats}
use squeeze_hunter.Broker.{Time}
use squeeze_hunter.Calendar.{is_trading_day}
use squeeze_hunter.Ingest.{Dataset, dataset_age_days}
use squeeze_hunter.Risk.Killswitch.{day}
use squeeze_hunter.Risk.Killswitch.Controller.{reset}
use squeeze_hunter.Execution.Book.{Book}
use squeeze_hunter.Execution.Proposals.{EntryDecision, Candidate}
use squeeze_hunter.Execution.Entries.Plan.{plan}
use squeeze_hunter.Runtime.{
  RuntimeContext, Job, ◌>>=◌, ◌>>◌, return, get, modify, call, safely, on_entries,
}
use squeeze_hunter.Runtime.Services.{Services, RuntimeCfg, Problem, Alert, Occasion}
use squeeze_hunter.Runtime.Persist.{persist, notify}
use squeeze_hunter.Runtime.Tick.{is_empty, gauges_of, with_gauges, reconcile_with_broker}

module _ {F : Type 0} where
  -- `ranked.set_index("ticker")["score"].to_dict()`
  abbrev pub scores_from : Dict F → List (Candidate F) → Dict F
  scores_from scores [] = scores
  scores_from scores (c ∷ cs) = scores_from (insert c.ticker c.score scores) cs

  -- The held positions that were ranked get their score of today.
  abbrev pub rescore : Dict F → Book F → Book F
  rescore scores [] = []
  rescore scores ((t, meta) ∷ book) =
      (t, record meta { current_score = get_or (lookup t scores) meta.current_score })
      ∷ rescore scores book

  -- Every position has been held one bar longer.
  abbrev pub count_bars : Book F → Book F
  count_bars [] = []
  count_bars ((t, meta) ∷ book) =
      (t, record meta { bars_held = meta.bars_held + 1 }) ∷ count_bars book

  abbrev pub with_book : Book F → RuntimeContext F → RuntimeContext F
  with_book book s = record s { lifecycle = record s.lifecycle { positions = book } }

module _ {F Stamp W : Type 0} ⦃f : Floats F⦄ (svc : Services F Stamp W) where
  -- The end of `nightly_scan`.
  abbrev pub publish : List (Candidate F) → Job F W (Unit {0})
  publish ranked = do
    modify λ s. record s { last_candidates = some (if s.killswitch.active then [] else ranked) }
    modify λ s. with_book (rescore (scores_from [] ranked) s.lifecycle.positions) s
    persist svc

module _ {F Stamp W : Type 0} ⦃f : Floats F⦄ (svc : Services F Stamp W) (cfg : RuntimeCfg F) where
  -- What is wrong with the age of one data set, if anything.
  abbrev pub problem_of : Dataset → F → Option F → List (Problem F)
  problem_of dataset budget none = Problem.never_ingested dataset budget ∷ []
  problem_of dataset budget (some age) =
      if f.lt budget age then Problem.too_old dataset age budget ∷ [] else []

  -- The stamps are read again for each data set.
  abbrev pub problems_of : Time → Bool → Dict F → List (Problem F) → Job F W (List (Problem F))
  problems_of now critical_only [] found s w = (ok found, s, w)
  problems_of now critical_only ((dataset, budget) ∷ budgets) found s w =
      if critical_only && not (contains dataset cfg.critical_datasets)
      then problems_of now critical_only budgets found s w
      else (let (stamps, w') = svc.read_freshness w in
          let age = dataset_age_days svc.datetimes stamps dataset now in
          problems_of now critical_only budgets (found ++ problem_of dataset budget age) s w')

  -- `_data_freshness_problems`
  unfoldable pub data_freshness_problems : Time → Bool → Job F W (List (Problem F))
  data_freshness_problems now critical_only = problems_of now critical_only cfg.budgets []

  -- `nightly_scan`: while the killswitch is active no candidate is given out, but the positions that
  -- are held are scored. The problems with the data are logged.
  unfoldable pub nightly_scan : Time → Job F W (Unit {0})
  nightly_scan now = do
    _ ← data_freshness_problems now false
    ranked ← call (svc.run_scan now)
    publish svc ranked

  unfoldable pub nightly_scan_safe : Time → Job F W Bool
  nightly_scan_safe now = safely (nightly_scan now)

  -- `eod_close`: nothing on a day without trading.
  unfoldable pub eod_close : Time → Job F W (Unit {0})
  eod_close now =
      if not (is_trading_day svc.holidays (svc.zone.wall now / day)) then return tt else do
        reconcile_with_broker svc true Occasion.eod
        modify λ s. with_book (count_bars s.lifecycle.positions) s
        persist svc

  unfoldable pub eod_close_safe : Time → Job F W Bool
  eod_close_safe now = safely (eod_close now)

  -- The candidates of last night, sized and planned.
  abbrev pub plan_entries : Time → Job F W (List (EntryDecision F))
  plan_entries now = do
    candidates ← get λ s. get_or s.last_candidates []
    active ← get λ s. s.killswitch.active
    on_entries (
        plan svc.broker cfg.execution cfg.entry svc.gate_context svc.append_decisions now candidates
          active)

  -- What follows the check of the data.
  abbrev pub plan_unless_stale : Time → List (Problem F) → Job F W (Unit {0})
  plan_unless_stale now problems =
      if not (is_empty problems) && cfg.require_fresh_for_entries
      then (notify svc (Alert.entries_refused problems) >> persist svc)
      else (plan_entries now >>= λ decisions. persist svc)

  abbrev pub plan_if_fresh : Time → Job F W (Unit {0})
  plan_if_fresh now =
      if not cfg.auto_enter
      then return tt
      else (data_freshness_problems now true >>= λ problems. plan_unless_stale now problems)

  -- `premarket_verify`: the earlier plan is dropped first.
  unfoldable pub premarket_verify : Time → Job F W (Unit {0})
  premarket_verify now = do modify λ s. record s { planned = [] }; plan_if_fresh now

  unfoldable pub premarket_verify_safe : Time → Job F W Bool
  premarket_verify_safe now = safely (premarket_verify now)

module _ {F W : Type 0} where
  -- `reset_killswitch`, by hand.
  unfoldable pub reset_killswitch : Job F W (Unit {0})
  reset_killswitch = modify λ s.
      let (c, g) = reset s.killswitch (gauges_of s.metrics) in
      record s { killswitch = c; metrics = with_gauges g s.metrics }
