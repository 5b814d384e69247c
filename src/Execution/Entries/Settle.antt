-- ===== src/Execution/Entries/Settle.antt =====
-- `settle_pending` of execution/entries.py: the entry orders that did not fill at once.
use squeeze_hunter.Prelude.{
  ◌+◌, ◌/◌, Bool, not, ◌||◌, none, some, List, [], ◌∷◌, Outcome, ok, raised, if◌then◌else◌, ltb,
  leb, ◌==◌, get_or,
}
use squeeze_hunter.Prelude.Floats.{Floats}
use squeeze_hunter.Broker.{OrderId, Time, BrokerOrder}
use squeeze_hunter.Risk.Killswitch.{day}
use squeeze_hunter.Execution.Orders.{OrderRecord, is_terminal, forget, open_orders, update}
use squeeze_hunter.Execution.Entries.{EntryPath, EntryCfg, minutes, window_open, finish_entry}
use squeeze_hunter.Execution.Lifecycle.{BrokerCalls, is_transient}

module _ {F : Type 0} (cfg : EntryCfg F) (now : Time) where
  -- After the entry window, or on another day than the order's.
  abbrev pub past_window : OrderRecord F → Bool
  past_window rec =
      leb (window_open cfg now + minutes cfg.entry_window_minutes) (cfg.wall now)
      || not (cfg.wall now / day == cfg.wall rec.submitted_at / day)

module _ {F : Type 0} ⦃f : Floats F⦄ (now : Time) where
  -- `self.pending.update(bo, now=now) or rec`
  unfoldable pub note_order :
      BrokerOrder F → OrderRecord F → EntryPath F → Outcome (OrderRecord F × EntryPath F)
  note_order bo rec s = elim (update bo now s.pending) [
    | raised e ↦ raised e
    | ok (found, pending) ↦ ok (get_or found rec, record s { pending = pending })
  ]

module _ {F W : Type 0} ⦃f : Floats F⦄ where
  unfoldable pub finish_if_terminal :
      OrderRecord F → EntryPath F → W → Outcome (Unit {0}) × EntryPath F × W
  finish_if_terminal updated s w =
      if is_terminal updated
      then (let (done, s') = finish_entry updated s in (done, s', w))
      else (ok tt, s, w)

module _ {F W : Type 0} ⦃f : Floats F⦄ (b : BrokerCalls F W) (cfg : EntryCfg F) (now : Time) where
  -- The order is cancelled, and what filled of it is kept.
  unfoldable pub cancel_rest :
      OrderId → OrderRecord F → EntryPath F → W → Outcome (Unit {0}) × EntryPath F × W
  cancel_rest order_id updated s w =
      let (cancelled, w') = b.cancel_order order_id w in
      elim cancelled [
        | raised e ↦ if is_transient e then (ok tt, s, w') else (raised e, s, w')
        | ok done ↦
            let (r, w'') = b.get_order order_id w' in
            elim r [
              | raised e ↦ if is_transient e then (ok tt, s, w'') else (raised e, s, w'')
              | ok none ↦ finish_if_terminal updated s w''
              | ok (some bo) ↦ elim (note_order now bo updated s) [
                | raised e ↦ (raised e, s, w'')
                | ok (updated', s') ↦ finish_if_terminal updated' s' w''
              ]
            ]
      ]

  -- What is done once the broker has told of the order.
  unfoldable pub settle_known :
      BrokerOrder F → OrderRecord F → EntryPath F → W → Outcome (Unit {0}) × EntryPath F × W
  settle_known bo rec s w = elim (note_order now bo rec s) [
    | raised e ↦ (raised e, s, w)
    | ok (updated, s') ↦
        if is_terminal updated || not (past_window cfg now rec)
        then finish_if_terminal updated s' w
        else cancel_rest rec.order_id updated s' w
  ]

  unfoldable pub settle_one : OrderRecord F → EntryPath F → W → Outcome (Unit {0}) × EntryPath F × W
  settle_one rec s w =
      let (r, w') = b.get_order rec.order_id w in
      elim r [
        | raised e ↦ if is_transient e then (ok tt, s, w') else (raised e, s, w')
        | ok none ↦
            if ltb (rec.submitted_at + day) now
            then (ok tt, record s { pending = forget rec.order_id s.pending }, w')
            else (ok tt, s, w')
        | ok (some bo) ↦ settle_known bo rec s w'
      ]

  unfoldable pub settle_all :
      List (OrderRecord F) → EntryPath F → W → Outcome (Unit {0}) × EntryPath F × W
  settle_all [] s w = (ok tt, s, w)
  settle_all (rec ∷ recs) s w =
      let (r, s', w') = settle_one rec s w in
      elim r [ raised e ↦ (raised e, s', w') | ok done ↦ settle_all recs s' w' ]

  -- The open records are those at the start. An error that is not caught ends the loop.
  unfoldable pub settle_pending : EntryPath F → W → Outcome (Unit {0}) × EntryPath F × W
  settle_pending s w = settle_all (open_orders s.pending) s w
