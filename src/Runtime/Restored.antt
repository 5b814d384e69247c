-- ===== src/Runtime/Restored.antt =====
-- The snapshot of runtime.py, written and restored.
use squeeze_hunter.Prelude.{
  ℕ, ◌≡◌, refl, sym, ap, ◌∙◌, false, Option, some, List, [], ◌∷◌, ◌++◌, Outcome, ok, raised, All,
  map, arith,
}
use mathlib.Core.List.{append-nil, append_assoc}
use squeeze_hunter.Prelude.Dict.{Dict, has, IsDict, insert_new, has-append}
use squeeze_hunter.Prelude.Floats.{Floats}
use squeeze_hunter.Broker.{Time}
use squeeze_hunter.Risk.Killswitch.{KillReason}
use squeeze_hunter.Risk.Killswitch.Controller.{listed, prior_state}
use squeeze_hunter.Risk.Killswitch.Snapshot.{restore, to_snapshot, restore-to_snapshot}
use squeeze_hunter.Execution.Orders.Snapshot.{IsoFormat, from_snapshot-to_snapshot}
use squeeze_hunter.Execution.Orders.Tracker.{IsTracker}
use squeeze_hunter.Runtime.{RuntimeContext, Job, ◌>>◌}
use squeeze_hunter.Runtime.Services.{Services}
use squeeze_hunter.Runtime.Persist.{
  somes, mark_entries, restore_book, restore_orders, restore_equity, dicts_from, stamped, read_list,
  read_peaks, snapshot, restore_killswitch, restore_from,
}

module _ {A : Type 0} where
  somes-map : (xs : List A) → somes (map some xs) ≡ xs
  somes-map [] = refl
  somes-map (x ∷ xs) = ap (λ (ys : List A). x ∷ ys) (somes-map xs)

  abbrev wrapped : Dict A → Dict (Option A)
  wrapped d = map (λ (e : ℕ × A). (e.0, some e.1)) d

  -- None of the keys of the second is a key of the first.
  abbrev Apart : Dict A → Dict A → Type 0
  Apart found d = All (λ (e : ℕ × A). has e.0 found ≡ false) d

  Apart-snoc :
      (found d : Dict A) (k : ℕ) (v : A)
      → has k d ≡ false
      → Apart found d
      → Apart (found ++ (k, v) ∷ []) d
  Apart-snoc found [] k v h n = tt
  Apart-snoc found (x ∷ d) k v h n = (
    ground (arith, has-append x.0 found ((k, v) ∷ [])),
    Apart-snoc found d k v (ground arith) n.1,
  )

  Apart-nil : (d : Dict A) → Apart [] d
  Apart-nil [] = tt
  Apart-nil (x ∷ d) = (refl, Apart-nil d)

  dicts_from-wrapped :
      (d found : Dict A) → IsDict d → Apart found d → dicts_from found (wrapped d) ≡ found ++ d
  dicts_from-wrapped [] found h n = sym (append-nil found)
  dicts_from-wrapped ((k, v) ∷ d) found h n =
      let ih = dicts_from-wrapped d (found ++ (k, v) ∷ []) h.1 (Apart-snoc found d k v h.0 n.1) in
      rw (dicts_from, insert_new k v found n.0, ih) (append_assoc found ((k, v) ∷ []) d)

module _ {F Stamp : Type 0} (iso : IsoFormat Stamp) where
  read_list-stamped : (xs : List (Time × F)) → read_list iso (stamped iso xs) ≡ ok xs
  read_list-stamped [] = refl
  read_list-stamped ((t, x) ∷ xs) = rw (read_list, iso.read_back t, read_list-stamped xs) refl

  read_peaks-stamped :
      (d found : Dict F)
      → IsDict d
      → Apart found d
      → read_peaks iso found (stamped iso d) ≡ ok (found ++ d)
  read_peaks-stamped [] found h n = ap ok (sym (append-nil found))
  read_peaks-stamped ((k, v) ∷ d) found h n =
      let ih = read_peaks-stamped d (found ++ (k, v) ∷ []) h.1 (Apart-snoc found d k v h.0 n.1) in
      rw (read_peaks, iso.read_back k, insert_new k v found n.0, ih)
        (ap ok (append_assoc found ((k, v) ∷ []) d))

module _ {F W : Type 0} where
  >>-run :
      {B : Type 0} (m : Job F W (Unit {0})) (k : Job F W B) {s t : RuntimeContext F} {w v : W}
      → m s w ≡ (ok tt, t, v)
      → (m >> k) s w ≡ k t v
  >>-run {B} m k e =
      ap
        (λ (x : Outcome (Unit {0}) × RuntimeContext F × W).
          let y : Outcome B × RuntimeContext F × W = elim x.0 [
            | ok a ↦ k x.1 x.2
            | raised e ↦ (raised e, x.1, x.2)
          ] in
          y)
        e

module _ {F Stamp W : Type 0} ⦃f : Floats F⦄ (svc : Services F Stamp W) where
  -- What restoring the snapshot of one daemon leaves of another.
  abbrev restored : RuntimeContext F → RuntimeContext F → RuntimeContext F
  restored s fresh = record fresh {
    lifecycle = record fresh.lifecycle { positions = s.lifecycle.positions };
    planned = s.planned;
    pending = s.pending;
    killswitch =
        (restore svc.datetimes (to_snapshot svc.datetimes s.killswitch) fresh.killswitch).1;
    telemetry = record (mark_entries s.lifecycle.positions fresh.telemetry) {
      equity_history = s.telemetry.equity_history;
      equity_peak_per_day = s.telemetry.equity_peak_per_day;
    };
  }

  restore_from-run :
      (s fresh : RuntimeContext F) (w : W)
      → IsDict s.lifecycle.positions
      → IsTracker s.pending
      → IsDict s.telemetry.equity_peak_per_day
      → restore_from svc (snapshot svc s) fresh w ≡ (ok tt, restored s fresh, w)
  unfolding restore_from snapshot
  restore_from-run s fresh w book_dict tracker peaks_dict =
      let snap = snapshot svc s in
      let book =
        dicts_from-wrapped s.lifecycle.positions [] book_dict (Apart-nil s.lifecycle.positions) in
      let planned = somes-map s.planned in
      let pending = from_snapshot-to_snapshot svc.datetimes s.pending tracker in
      let history = read_list-stamped svc.datetimes s.telemetry.equity_history in
      let days = s.telemetry.equity_peak_per_day in
      let peaks = read_peaks-stamped svc.dates days [] peaks_dict (Apart-nil days) in
      let (done, same, labels) = restore-to_snapshot svc.datetimes s.killswitch fresh.killswitch in
      let s₁ : RuntimeContext F = record fresh {
        lifecycle = record fresh.lifecycle { positions = s.lifecycle.positions };
        telemetry = mark_entries s.lifecycle.positions fresh.telemetry;
        planned = s.planned;
      } in
      let s₂ : RuntimeContext F = record s₁ { pending = s.pending } in
      let s₃ : RuntimeContext F = record s₂ {
        killswitch =
            (restore svc.datetimes (to_snapshot svc.datetimes s.killswitch) fresh.killswitch).1;
      } in
      let e₁ : restore_book svc snap fresh w ≡ (ok tt, s₁, w) = rw (book, planned) refl in
      let e₂ : restore_orders svc snap s₁ w ≡ (ok tt, s₂, w) = rw (restore_orders, pending) refl in
      let e₃ : restore_killswitch svc snap.killswitch s₂ w ≡ (ok tt, s₃, w) =
        ap (λ r. (r, s₃, w)) done in
      let e₄ : restore_equity svc snap s₃ w ≡ (ok tt, restored s fresh, w) =
        rw (restore_equity, history, peaks) refl in
      >>-run (restore_book svc snap)
        (restore_orders svc snap
          >> (restore_killswitch svc snap.killswitch >> restore_equity svc snap))
        {s = fresh} e₁
      ∙ >>-run (restore_orders svc snap)
          (restore_killswitch svc snap.killswitch >> restore_equity svc snap) e₂
      ∙ >>-run (restore_killswitch svc snap.killswitch) (restore_equity svc snap) e₃
      ∙ e₄

  -- A daemon whose book, pending orders and daily peaks are well formed, and that is written to a
  -- snapshot and restored into whichever other: nothing is raised and the world is left alone. The book,
  -- the plan, the pending orders, the recorded equity and peaks are the same, in the same order, and so
  -- are the killswitch, its reason, its first trip and, as a set, its labels.
  pub restore_from-snapshot :
      (s fresh : RuntimeContext F) (w : W)
      → IsDict s.lifecycle.positions
      → IsTracker s.pending
      → IsDict s.telemetry.equity_peak_per_day
      → let (r, s', w') = restore_from svc (snapshot svc s) fresh w in
        (r ≡ ok tt)
        × (w' ≡ w)
        × (s'.lifecycle.positions ≡ s.lifecycle.positions)
        × (s'.planned ≡ s.planned)
        × (s'.pending ≡ s.pending)
        × (s'.telemetry.equity_history ≡ s.telemetry.equity_history)
        × (s'.telemetry.equity_peak_per_day ≡ s.telemetry.equity_peak_per_day)
        × (prior_state s'.killswitch ≡ prior_state s.killswitch)
        × ((l : KillReason)
            → listed l s'.killswitch.active_reasons ≡ listed l s.killswitch.active_reasons)
  restore_from-snapshot s fresh w book_dict tracker peaks_dict =
      let (done, same, labels) = restore-to_snapshot svc.datetimes s.killswitch fresh.killswitch in
      rw (restore_from-run s fresh w book_dict tracker peaks_dict)
        (refl, refl, refl, refl, refl, refl, refl, same, labels)
