-- ===== src/Tests/Orders.antt =====
-- execution/orders.py on an order of ten shares that fills in two parts.
use squeeze_hunter.Prelude.{
  ℕ, ◌↔◌, ◌<◌, raised, invalid_transition, ◌≡◌, ◌⊎◌, refl, true, none, some, List, [], ◌∷◌, ok, map,
  if◌then◌else◌, ◌==◌,
}
use squeeze_hunter.Prelude.Fixed.{Fixed, fixed_floats}
use squeeze_hunter.Broker.{Side, Status, Time, OrderId, BrokerOrder}
use squeeze_hunter.Execution.Orders.{
  OrderState, Purpose, OrderRecord, OrderTracker, apply, get, update, is_terminal,
  state_from_broker_order,
}
use squeeze_hunter.Execution.Orders.Transitions.{
  rank, Follows, apply_all, apply_all-Follows, apply_raises_iff,
}
use squeeze_hunter.Execution.Orders.Tracker.{IsTracker, Applied, update-get}
use squeeze_hunter.Execution.Orders.Snapshot.{
  IsoFormat, to_snapshot, from_snapshot, from_snapshot-to_snapshot,
}

abbrev report : Status → ℕ → BrokerOrder Fixed
report status filled = record {
  broker_order_id = 7;
  ticker = 1;
  side = Side.buy;
  qty = 10;
  limit_price = some (fixed_floats.dec 20 0);
  status = status;
  filled_qty = filled;
  avg_fill_price = some (fixed_floats.dec 199 1);
  commission_usd = fixed_floats.dec 5 2;
}

abbrev order : OrderState → ℕ → Time → OrderRecord Fixed
order state filled now = record {
  order_id = 7;
  ticker = 1;
  side = Side.buy;
  qty = 10;
  limit_price = some (fixed_floats.dec 20 0);
  purpose = Purpose.entry;
  state = state;
  filled_qty = filled;
  avg_fill_price = some (fixed_floats.dec 199 1);
  submitted_at = 100;
  updated_at = now;
  commission_usd = fixed_floats.dec 5 2;
  meta = record { score = none; setup_type = none; size_usd = none };
}

abbrev reports : List (BrokerOrder Fixed × Time)
reports = (report Status.partial 4, 101) ∷ (report Status.filled 10, 102) ∷ []

reports_run :
    apply_all reports (order OrderState.pending 0 100) ≡ ok (order OrderState.filled 10 102)
unfolding apply_all apply
reports_run = refl

apply_all-Follows_example :
    Follows (order OrderState.pending 0 100) (order OrderState.filled 10 102)
apply_all-Follows_example = apply_all-Follows reports (order OrderState.pending 0 100) reports_run

abbrev tracker : OrderTracker Fixed
tracker = (7, order OrderState.partial 4 101) ∷ []

tracker-IsTracker : IsTracker tracker
tracker-IsTracker = (refl, refl, tt)

-- Stamps that are the times themselves.
abbrev pub plain : IsoFormat Time
plain = record { isoformat = λ t. t; fromisoformat = ok; read_back = λ t. refl }

abbrev late : OrderRecord Fixed
late = order OrderState.partial 4 101

apply_raises_iff_example :
    (apply late (report Status.rejected 4) 105 ≡ raised invalid_transition) ↔ (
      (is_terminal late ≡ true)
      ⊎ ((late.state ≡ OrderState.partial)
          × ((Status.rejected ≡ Status.rejected)
              ⊎ (rank (state_from_broker_order (report Status.rejected 4)) < 2))))
apply_raises_iff_example = apply_raises_iff late (report Status.rejected 4) 105

abbrev updated : OrderTracker Fixed
updated = (7, order OrderState.filled 10 102) ∷ []

update_run :
    update (report Status.filled 10) 102 tracker
    ≡ ok (some (order OrderState.filled 10 102), (7, order OrderState.filled 10 102) ∷ [])
unfolding update apply
update_run = refl

update-get_example :
    IsTracker updated
    × Applied (report Status.filled 10) 102 (get 7 tracker) (some (order OrderState.filled 10 102))
    × ((j : OrderId)
        → get j updated ≡ (if j == 7 then some (order OrderState.filled 10 102) else get j tracker))
update-get_example =
    update-get (report Status.filled 10) 102 tracker updated tracker-IsTracker update_run

from_snapshot-to_snapshot_example :
    from_snapshot plain (map some (to_snapshot plain tracker)) ≡ ok tracker
from_snapshot-to_snapshot_example = from_snapshot-to_snapshot plain tracker tracker-IsTracker
