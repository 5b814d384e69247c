-- ===== src/Runtime/Services.antt =====
-- What the jobs of runtime.py call outside the daemon: the broker, the alerts, the store, the cache.
use squeeze_hunter.Prelude.{ℕ, Bool, Option, List, Outcome}
use squeeze_hunter.Prelude.Dict.{Dict}
use squeeze_hunter.Broker.{Ticker, Time}
use squeeze_hunter.Calendar.{Zone}
use squeeze_hunter.Data.{Bar, Date}
use squeeze_hunter.Ingest.{Dataset, FreshnessStamp}
use squeeze_hunter.Risk.Gates.{GateContext}
use squeeze_hunter.Risk.Killswitch.{KillReason}
use squeeze_hunter.Risk.Killswitch.Controller.{KillswitchCfg}
use squeeze_hunter.Risk.Stops.{StopParams}
use squeeze_hunter.Execution.Orders.Snapshot.{IsoFormat}
use squeeze_hunter.Execution.Proposals.{EntryDecision, Candidate, EntrySettings}
use squeeze_hunter.Execution.Reconcile.{Drift}
use squeeze_hunter.Execution.Lifecycle.{BrokerCalls}
use squeeze_hunter.Execution.Entries.{EntryCfg}
use squeeze_hunter.Runtime.{RuntimeSnapshot}

pub data Occasion : Type 0 where
  startup tick eod : Occasion

module _ (F : Type 0) where
  -- A data set that is too old, or was never ingested, with its budget in days.
  pub data Problem : Type 0 where
    never_ingested : Dataset → F → Problem
    too_old : Dataset → F → F → Problem

  -- The texts that are sent.
  pub data Alert : Type 0 where
    killswitch_tripped : Option KillReason → Time → Alert
    reconciled : Occasion → List Drift → Alert
    entries_refused : List Problem → Alert

  -- What the jobs read of the settings. The magnitudes of the stops are settings.stops, in which the
  -- trailing ones are negative.
  pub record RuntimeCfg : Type 0 where
    pub stops : StopParams F
    pub killswitch : KillswitchCfg F
    pub cooldown_days : ℕ
    pub execution : EntryCfg F
    pub auto_enter : Bool
    pub entry : EntrySettings F
    pub budgets : Dict F
    pub critical_datasets : List Dataset
    pub require_fresh_for_entries : Bool

-- A service that may be missing is an option. `simulated` says that the broker is the simulator, which
-- alone is marked to the market.
pub record Services (F Stamp W : Type 0) : Type 0 where
  pub broker : BrokerCalls F W
  pub health : W → Outcome Bool × W
  pub simulated : Bool
  pub mark_to_market : Dict F → Time → W → W
  pub send : Option (Alert F → W → Outcome (Unit {0}) × W)
  pub save : Option (RuntimeSnapshot F Stamp → W → Outcome (Unit {0}) × W)
  pub load : W → Outcome (Option (RuntimeSnapshot F Stamp)) × W
  pub run_scan : Time → W → Outcome (List (Candidate F)) × W
  pub fetch_bars : Ticker → Time → Time → Outcome (List (Bar F))
  pub gate_context : Time → Outcome (GateContext F)
  pub append_decisions : Time → List (EntryDecision F) → W → Outcome (Unit {0}) × W
  pub read_freshness : W → Dict (FreshnessStamp Stamp) × W
  pub zone : Zone
  pub holidays : List Date
  pub bdays : Time → Time
  pub datetimes : IsoFormat Stamp
  pub dates : IsoFormat Stamp
