-- ===== src/Execution/Entries/Settlement.antt =====
-- After the entry window, `settle_pending` of execution/entries.py leaves no order open.
use squeeze_hunter.Prelude.{◌≡◌, none, Outcome, ok, if◌then◌else◌, ◌==◌}
use squeeze_hunter.Prelude.Floats.{Floats}
use squeeze_hunter.Broker.{OrderId}
use squeeze_hunter.Execution.Orders.{OrderTracker, get}
use squeeze_hunter.Execution.Orders.Tracker.{IsTracker}
use squeeze_hunter.Execution.Entries.{EntryPath}

module _ {F W : Type 0} where
  -- The step returned, the order is pending no longer, and the others are as before.
  abbrev Settled : OrderId → OrderTracker F → Outcome (Unit {0}) × EntryPath F × W → Type 0
  Settled id pending (returned, s, w) =
      (returned ≡ ok tt)
      × ((j : OrderId) → get j s.pending ≡ (if j == id then none else get j pending))
      × IsTracker s.pending
