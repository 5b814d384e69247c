-- ===== src/Runtime.antt =====
-- runtime.py: the state that the daemon keeps between its jobs, what it calls, and how a job runs. The
-- entry path shares the book and the telemetry, so it has none of its own here.
pub mod Services
pub mod Persist
pub mod Tick
pub mod Daily
pub mod Setup
pub mod Rules
pub mod Scan
pub mod Premarket
pub mod Suppressed
pub mod Marks
pub mod Restored
use squeeze_hunter.Prelude.{
  ℕ, Bool, true, false, Option, none, some, List, Outcome, ok, raised, if◌then◌else◌,
}
use squeeze_hunter.Prelude.Dict.{Dict}
use squeeze_hunter.Broker.{Ticker, Time}
use squeeze_hunter.Data.{Date}
use squeeze_hunter.Telemetry.{PortfolioTelemetry}
use squeeze_hunter.Risk.Killswitch.Controller.{Controller, Gauges}
use squeeze_hunter.Risk.Killswitch.Snapshot.{SnapshotDict}
use squeeze_hunter.Execution.Book.{Position}
use squeeze_hunter.Execution.Orders.{OrderTracker}
use squeeze_hunter.Execution.Orders.Snapshot.{Row}
use squeeze_hunter.Execution.Proposals.{EntryDecision, Candidate}
use squeeze_hunter.Execution.Lifecycle.{LifecycleState, is_transient}
use squeeze_hunter.Execution.Entries.{EntryPath}

module _ (F : Type 0) where
  -- The gauges of monitor/metrics.py that the daemon sets.
  pub record Registry : Type 0 where
    pub kill : Gauges
    pub equity : Option F
    pub position_count : ℕ
    pub broker_connected : Bool

  pub record RuntimeContext : Type 0 where
    pub has_broker : Bool
    pub metrics : Option Registry
    pub lifecycle : LifecycleState F
    pub killswitch : Controller
    pub telemetry : PortfolioTelemetry F
    pub last_candidates : Option (List (Candidate F))
    pub tick_in_progress : Bool
    pub last_broker_healthy : Bool
    pub planned : List (EntryDecision F)
    pub pending : OrderTracker F

-- The document that `_snapshot` makes. A key that is absent is empty, and a value of a dict or list
-- that is not itself a dict is `none`.
pub record RuntimeSnapshot (F Stamp : Type 0) : Type 0 where
  pub positions : Dict (Option (Position F))
  pub planned_entries : List (Option (EntryDecision F))
  pub pending_buys : List (Option (Row F Stamp))
  pub killswitch : SnapshotDict Stamp
  pub equity_history : List (Stamp × F)
  pub equity_peak_per_day : List (Stamp × F)

-- A job changes the daemon's state and the world, and returns or raises.
abbrev pub Job : Type 0 → Type 0 → Type 0 → Type 0
Job F W A = RuntimeContext F → W → Outcome A × RuntimeContext F × W

module _ {F W : Type 0} where
  infixl 5 ◌>>=◌ ◌>>◌
  abbrev pub ◌>>=◌ : {A B : Type 0} → Job F W A → (A → Job F W B) → Job F W B
  ◌>>=◌ m g s w =
      let (r, s', w') = m s w in elim r [ ok a ↦ g a s' w' | raised e ↦ (raised e, s', w') ]

  abbrev pub ◌>>◌ : {B : Type 0} → Job F W (Unit {0}) → Job F W B → Job F W B
  m >> k = m >>= λ done. k

  abbrev pub return : {A : Type 0} → A → Job F W A
  return a s w = (ok a, s, w)

  -- A computation that may raise and changes nothing.
  abbrev pub lift : {A : Type 0} → Outcome A → Job F W A
  lift r s w = (r, s, w)

  abbrev pub get : {A : Type 0} → (RuntimeContext F → A) → Job F W A
  get read s w = (ok (read s), s, w)

  abbrev pub modify : (RuntimeContext F → RuntimeContext F) → Job F W (Unit {0})
  modify change s w = (ok tt, change s, w)

  -- A call of something outside.
  abbrev pub call : {A : Type 0} → (W → Outcome A × W) → Job F W A
  call m s w = let (r, w') = m w in (r, s, w')

  abbrev pub when : Bool → Job F W (Unit {0}) → Job F W (Unit {0})
  when test m s w = if test then m s w else (ok tt, s, w)

  -- `except _TRANSIENT_IO_ERRORS`, with what the handler gives.
  abbrev pub or_transient : {A : Type 0} → Job F W A → A → Job F W A
  or_transient m fallback s w =
      let (r, s', w') = m s w in
      elim r [
        | ok a ↦ (ok a, s', w')
        | raised e ↦ if is_transient e then (ok fallback, s', w') else (raised e, s', w')
      ]

  -- `except Exception` around a job, which says whether it returned.
  abbrev pub safely : Job F W (Unit {0}) → Job F W Bool
  safely m s w =
      let (r, s', w') = m s w in elim r [ ok a ↦ (ok true, s', w') | raised e ↦ (ok false, s', w') ]

module _ {F : Type 0} where
  abbrev pub entry_path : RuntimeContext F → EntryPath F
  entry_path s = record {
    book = s.lifecycle.positions;
    telemetry = s.telemetry;
    planned = s.planned;
    pending = s.pending;
  }

  abbrev pub with_entries : EntryPath F → RuntimeContext F → RuntimeContext F
  with_entries p s = record s {
    lifecycle = record s.lifecycle { positions = p.book };
    telemetry = p.telemetry;
    planned = p.planned;
    pending = p.pending;
  }

module _ {F W : Type 0} where
  -- A method of the entry path.
  abbrev pub on_entries : {A : Type 0} → (EntryPath F → W → Outcome A × EntryPath F × W) → Job F W A
  on_entries m s w = let (r, p, w') = m (entry_path s) w in (r, with_entries p s, w')

  -- A pass of the lifecycle daemon.
  abbrev pub on_lifecycle :
      {A : Type 0} → (LifecycleState F → W → Outcome A × LifecycleState F × W) → Job F W A
  on_lifecycle m s w = let (r, l, w') = m s.lifecycle w in (r, record s { lifecycle = l }, w')
