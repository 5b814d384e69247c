-- ===== src/Runtime/Persist.antt =====
-- The alerts and the snapshot of runtime.py.
use squeeze_hunter.Prelude.{ℕ, Option, none, some, List, [], ◌∷◌, Outcome, ok, raised, map}
use squeeze_hunter.Prelude.Dict.{Dict, insert}
use squeeze_hunter.Prelude.Floats.{Floats}
use squeeze_hunter.Broker.{Time}
use squeeze_hunter.Telemetry.{PortfolioTelemetry, record_position}
use squeeze_hunter.Risk.Killswitch.Snapshot.{
  SnapshotDict, restore, to_snapshot as killswitch_snapshot,
}
use squeeze_hunter.Execution.Book.{Position, Book}
use squeeze_hunter.Execution.Orders.Snapshot.{
  IsoFormat, from_snapshot, to_snapshot as orders_snapshot,
}
use squeeze_hunter.Runtime.{
  RuntimeContext, RuntimeSnapshot, Job, ◌>>=◌, ◌>>◌, return, lift, modify, call, or_transient,
}
use squeeze_hunter.Runtime.Services.{Services, Alert}

module _ {A : Type 0} where
  -- The members of a list that are there.
  abbrev pub somes : List (Option A) → List A
  somes [] = []
  somes (none ∷ xs) = somes xs
  somes (some x ∷ xs) = x ∷ somes xs

  -- The entries of a dict whose values are dicts, in a new dict.
  abbrev pub dicts_from : Dict A → Dict (Option A) → Dict A
  dicts_from found [] = found
  dicts_from found ((k, none) ∷ d) = dicts_from found d
  dicts_from found ((k, some v) ∷ d) = dicts_from (insert k v found) d

module _ {F : Type 0} where
  -- Each restored position is marked at its entry price.
  abbrev pub mark_entries : Book F → PortfolioTelemetry F → PortfolioTelemetry F
  mark_entries [] t = t
  mark_entries ((ticker, meta) ∷ book) t =
      mark_entries book (record_position ticker meta.entry_price meta.entry_price t)

module _ {F Stamp : Type 0} where
  abbrev pub stamped : IsoFormat Stamp → List (Time × F) → List (Stamp × F)
  stamped iso [] = []
  stamped iso ((t, x) ∷ xs) = (iso.isoformat t, x) ∷ stamped iso xs

  abbrev read_stamp : IsoFormat Stamp → Stamp × F → Outcome (Time × F)
  read_stamp iso (raw, x) = elim (iso.fromisoformat raw) [ ok t ↦ ok (t, x) | raised e ↦ raised e ]

  -- `[(fromisoformat(ts), eq) for ts, eq in rows]`
  abbrev pub read_list : IsoFormat Stamp → List (Stamp × F) → Outcome (List (Time × F))
  read_list iso [] = ok []
  read_list iso (row ∷ rows) = elim (read_stamp iso row) [
    | raised e ↦ raised e
    | ok x ↦ elim (read_list iso rows) [ raised e ↦ raised e | ok xs ↦ ok (x ∷ xs) ]
  ]

  -- `{date.fromisoformat(d): peak for d, peak in rows}`, added to the days read before.
  abbrev pub read_peaks : IsoFormat Stamp → Dict F → List (Stamp × F) → Outcome (Dict F)
  read_peaks iso found [] = ok found
  read_peaks iso found (row ∷ rows) = elim (read_stamp iso row) [
    | raised e ↦ raised e
    | ok (d, peak) ↦ read_peaks iso (insert d peak found) rows
  ]

module _ {F Stamp W : Type 0} ⦃f : Floats F⦄ (svc : Services F Stamp W) where
  -- `_snapshot`; the mode and the version, which nothing reads, are left out.
  unfoldable pub snapshot : RuntimeContext F → RuntimeSnapshot F Stamp
  snapshot s = record {
    positions = map (λ (e : ℕ × Position F). (e.0, some e.1)) s.lifecycle.positions;
    planned_entries = map some s.planned;
    pending_buys = map some (orders_snapshot svc.datetimes s.pending);
    killswitch = killswitch_snapshot svc.datetimes s.killswitch;
    equity_history = stamped svc.datetimes s.telemetry.equity_history;
    equity_peak_per_day = stamped svc.dates s.telemetry.equity_peak_per_day;
  }

  -- An error of the file system is logged, and the next job saves again.
  unfoldable pub persist : Job F W (Unit {0})
  persist s w = elim svc.save [
    | none ↦ (ok tt, s, w)
    | some save ↦ or_transient (call (save (snapshot s))) tt s w
  ]

  -- `_notify`: an alert that cannot be delivered breaks nothing. Transport errors are `transient`.
  unfoldable pub notify : Alert F → Job F W (Unit {0})
  notify alert = elim svc.send [
    | none ↦ return tt
    | some send ↦ or_transient (call (send alert)) tt
  ]

  -- `self.killswitch.restore(...)`
  abbrev pub restore_killswitch : SnapshotDict Stamp → Job F W (Unit {0})
  restore_killswitch snap s w =
      let (r, c) = restore svc.datetimes snap s.killswitch in (r, record s { killswitch = c }, w)

  -- The book, marked at its entry prices, and the plan.
  abbrev pub restore_book : RuntimeSnapshot F Stamp → Job F W (Unit {0})
  restore_book snap = modify λ s.
      let book = dicts_from [] snap.positions in
      record s {
        lifecycle = record s.lifecycle { positions = book };
        telemetry = mark_entries book s.telemetry;
        planned = somes snap.planned_entries;
      }

  abbrev pub restore_orders : RuntimeSnapshot F Stamp → Job F W (Unit {0})
  restore_orders snap = do
    pending ← lift (from_snapshot svc.datetimes snap.pending_buys)
    modify λ s. record s { pending = pending }

  abbrev pub restore_equity : RuntimeSnapshot F Stamp → Job F W (Unit {0})
  restore_equity snap = do
    history ← lift (read_list svc.datetimes snap.equity_history)
    modify λ s. record s { telemetry = record s.telemetry { equity_history = history } }
    peaks ← lift (read_peaks svc.dates [] snap.equity_peak_per_day)
    modify λ s. record s { telemetry = record s.telemetry { equity_peak_per_day = peaks } }

  -- `_restore`, in the order of its assignments: what was restored before an error stays.
  unfoldable pub restore_from : RuntimeSnapshot F Stamp → Job F W (Unit {0})
  restore_from snap = do
    restore_book snap
    restore_orders snap
    restore_killswitch snap.killswitch
    restore_equity snap
