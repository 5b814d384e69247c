-- ===== src/Risk/Killswitch/Snapshot.antt =====
-- The snapshot of risk/killswitch_controller.py. A label is written as its text; `sorted` lists the
-- labels of the set by their texts.
use squeeze_hunter.Prelude.{
  ◌≡◌, refl, Bool, true, false, ◌&&◌, Option, none, some, List, [], ◌∷◌, Outcome, ok, raised, keep,
  get_or, arith,
}
use squeeze_hunter.Broker.{Time}
use squeeze_hunter.Execution.Orders.Snapshot.{IsoFormat}
use squeeze_hunter.Risk.Killswitch.{KillReason}
use squeeze_hunter.Risk.Killswitch.Controller.{Controller, listed, prior_state}
use squeeze_hunter.Risk.Killswitch.Gauges.{listed_congr}

-- The keys of the dict, each absent or present; an absent reason or stamp is `None`.
pub record SnapshotDict (Stamp : Type 0) : Type 0 where
  pub active : Option Bool
  pub reason : Option KillReason
  pub first_tripped_at : Option Stamp
  pub active_reasons : Option (List KillReason)

-- Every label, by its text.
abbrev pub labels : List KillReason
labels =
    KillReason.broker_outage ∷ KillReason.cooldown ∷ KillReason.data_stale
    ∷ KillReason.gap_through_stop ∷ KillReason.monthly_drawdown ∷ KillReason.three_day_loss
    ∷ KillReason.unknown ∷ []

abbrev sorted : List KillReason → List KillReason
sorted set = keep (λ l. listed l set) labels

module _ {Stamp : Type 0} (iso : IsoFormat Stamp) where
  abbrev stamp_of : Option Time → Option Stamp
  stamp_of none = none
  stamp_of (some t) = some (iso.isoformat t)

  pub to_snapshot : Controller → SnapshotDict Stamp
  to_snapshot self = record {
    active = some self.active;
    reason = self.reason;
    first_tripped_at = stamp_of self.first_tripped_at;
    active_reasons = some (sorted self.active_reasons);
  }

  abbrev time_of : Option Stamp → Outcome (Option Time)
  time_of none = ok none
  time_of (some raw) = elim (iso.fromisoformat raw) [ ok t ↦ ok (some t) | raised e ↦ raised e ]

  -- A stamp that cannot be read raises after the switch and its reason have been taken over.
  pub restore : SnapshotDict Stamp → Controller → Outcome (Unit {0}) × Controller
  restore snap self =
      let begun = record self { active = get_or snap.active false; reason = snap.reason } in
      elim (time_of snap.first_tripped_at) [
        | raised e ↦ (raised e, begun)
        | ok t ↦ (
          ok tt,
          record begun { first_tripped_at = t; active_reasons = get_or snap.active_reasons [] },
        )
      ]

  time_of-stamp_of : (t : Option Time) → time_of (stamp_of t) ≡ ok t
  time_of-stamp_of none = refl
  time_of-stamp_of (some t) = ground (arith, iso.read_back t)

  listed-keep :
      (l : KillReason) (set all : List KillReason)
      → listed l (keep (λ r. listed r set) all) ≡ (listed l all && listed l set)
  listed-keep l set [] = refl
  listed-keep l set (r ∷ all) = ground (arith, listed-keep l set all, listed_congr l r set)

  listed-labels : (l : KillReason) → listed l labels ≡ true
  listed-labels KillReason.monthly_drawdown = refl
  listed-labels KillReason.three_day_loss = refl
  listed-labels KillReason.gap_through_stop = refl
  listed-labels KillReason.broker_outage = refl
  listed-labels KillReason.data_stale = refl
  listed-labels KillReason.cooldown = refl
  listed-labels KillReason.unknown = refl

  -- A controller that is written to a snapshot and restored, into whichever controller, raises
  -- nothing and gives back the switch, its reason and its first trip, and a set with the same labels.
  pub restore-to_snapshot :
      (c fresh : Controller)
      → let (r, c') = restore (to_snapshot c) fresh in
        (r ≡ ok tt)
        × (prior_state c' ≡ prior_state c)
        × ((l : KillReason) → listed l c'.active_reasons ≡ listed l c.active_reasons)
  unfolding restore to_snapshot
  restore-to_snapshot c fresh =
      rw (restore, time_of-stamp_of c.first_tripped_at)
        (refl, refl, λ l. ground (arith, listed-keep l c.active_reasons labels, listed-labels l))
