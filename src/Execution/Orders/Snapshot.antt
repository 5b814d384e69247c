-- ===== src/Execution/Orders/Snapshot.antt =====
-- The snapshot of execution/orders.py: records to dictionaries and back. A row holds each key of
-- `to_dict`, absent or present; `isoformat` is the standard library's and stays a parameter.
use squeeze_hunter.Prelude.{
  ℕ, ◌≡◌, refl, sym, ap, Option, none, some, List, [], ◌∷◌, ◌++◌, Outcome, ok, raised, key_error,
  value_error, All, ◌>>=◌, if◌then◌else◌, get_or, map, false, ◌==◌, arith,
}
use mathlib.Core.Path.{subst}
use mathlib.Core.List.{append-nil, append_assoc}
use squeeze_hunter.Prelude.Dict.{has, insert, values, insert_new, has-append}
use squeeze_hunter.Prelude.Floats.{Floats, nought}
use squeeze_hunter.Broker.{Ticker, OrderId, Side, Time}
use squeeze_hunter.Execution.Orders.{OrderState, Purpose, OrderMeta, OrderRecord, OrderTracker, add}
use squeeze_hunter.Execution.Orders.Tracker.{IsTracker}

-- `datetime.isoformat` and `datetime.fromisoformat`, inverse on what the first writes.
pub record IsoFormat (Stamp : Type 0) : Type 0 where
  pub isoformat : Time → Stamp
  pub fromisoformat : Stamp → Outcome Time
  pub read_back : (t : Time) → fromisoformat (isoformat t) ≡ ok t

pub record Row (F Stamp : Type 0) : Type 0 where
  pub order_id : Option OrderId
  pub ticker : Option Ticker
  pub side : Option Side
  pub qty : Option ℕ
  pub limit_price : Option F
  pub purpose : Option Purpose
  pub state : Option ℕ
  pub filled_qty : Option ℕ
  pub avg_fill_price : Option F
  pub submitted_at : Option Stamp
  pub updated_at : Option Stamp
  pub commission_usd : Option F
  pub meta : Option (OrderMeta F)

-- `state.value`: the seven texts, numbered in the order of the enum.
abbrev state_value : OrderState → ℕ
state_value OrderState.pending = 0
state_value OrderState.routed = 1
state_value OrderState.partial = 2
state_value OrderState.filled = 3
state_value OrderState.rejected = 4
state_value OrderState.cancelled = 5
state_value OrderState.expired = 6

-- `OrderState(text)`, which raises on any other text.
abbrev state_of_value : ℕ → Outcome OrderState
state_of_value n =
    if n == 0
    then ok OrderState.pending
    else if n == 1
    then ok OrderState.routed
    else if n == 2
    then ok OrderState.partial
    else if n == 3
    then ok OrderState.filled
    else if n == 4
    then ok OrderState.rejected
    else if n == 5
    then ok OrderState.cancelled
    else if n == 6
    then ok OrderState.expired
    else raised value_error

-- `d[key]`
abbrev required {ℓ} : {A : Type ℓ} → Option A → Outcome A
required none = raised key_error
required (some a) = ok a

module _ {F Stamp : Type 0} ⦃f : Floats F⦄ (iso : IsoFormat Stamp) where
  open iso use {isoformat, fromisoformat, read_back}

  abbrev empty_meta : OrderMeta F
  empty_meta = record { score = none; setup_type = none; size_usd = none }

  unfoldable pub to_dict : OrderRecord F → Row F Stamp
  to_dict r = record {
    order_id = some r.order_id;
    ticker = some r.ticker;
    side = some r.side;
    qty = some r.qty;
    limit_price = r.limit_price;
    purpose = some r.purpose;
    state = some (state_value r.state);
    filled_qty = some r.filled_qty;
    avg_fill_price = r.avg_fill_price;
    submitted_at = some (isoformat r.submitted_at);
    updated_at = some (isoformat r.updated_at);
    commission_usd = some r.commission_usd;
    meta = some r.meta;
  }

  pub from_dict : Row F Stamp → Outcome (OrderRecord F)
  from_dict d = do
    order_id ← required d.order_id
    ticker ← required d.ticker
    side ← required d.side
    qty ← required d.qty
    state ← state_of_value (get_or d.state 0)
    submitted ← required d.submitted_at
    submitted_at ← fromisoformat submitted
    updated ← required d.updated_at
    updated_at ← fromisoformat updated
    ok (record {
      order_id = order_id;
      ticker = ticker;
      side = side;
      qty = qty;
      limit_price = d.limit_price;
      purpose = get_or d.purpose Purpose.entry;
      state = state;
      filled_qty = get_or d.filled_qty 0;
      avg_fill_price = d.avg_fill_price;
      submitted_at = submitted_at;
      updated_at = updated_at;
      commission_usd = get_or d.commission_usd nought;
      meta = get_or d.meta empty_meta;
    })

  pub to_snapshot : OrderTracker F → List (Row F Stamp)
  to_snapshot t = map to_dict (values t)

  -- One pass of the loop in `from_snapshot`; `none` is a row that is not a dict.
  abbrev load_row : OrderTracker F → Option (Row F Stamp) → Outcome (OrderTracker F)
  load_row tracker none = ok tracker
  load_row tracker (some row) = from_dict row >>= λ rec. ok (add rec tracker)

  load_rows : OrderTracker F → List (Option (Row F Stamp)) → Outcome (OrderTracker F)
  load_rows tracker [] = ok tracker
  load_rows tracker (row ∷ rows) = load_row tracker row >>= λ t. load_rows t rows

  pub from_snapshot : List (Option (Row F Stamp)) → Outcome (OrderTracker F)
  unfolding load_rows
  from_snapshot rows = load_rows [] rows

  from_dict-to_dict : (r : OrderRecord F) → from_dict (to_dict r) ≡ ok r
  unfolding from_dict to_dict
  from_dict-to_dict r = ground (arith, read_back r.submitted_at, read_back r.updated_at)

  -- None of the keys of the second is a key of the first.
  abbrev Fresh : OrderTracker F → OrderTracker F → Type 0
  Fresh acc = All λ e. has e.0 acc ≡ false

  Fresh-snoc :
      (acc t : OrderTracker F) (k : OrderId) (r : OrderRecord F)
      → has k t ≡ false
      → Fresh acc t
      → Fresh (acc ++ (k, r) ∷ []) t
  Fresh-snoc acc [] k r h n = tt
  Fresh-snoc acc (x ∷ t) k r h n =
      (ground (arith, has-append x.0 acc ((k, r) ∷ [])), Fresh-snoc acc t k r (ground arith) n.1)

  load_rows-to_snapshot :
      (t acc : OrderTracker F)
      → IsTracker t
      → Fresh acc t
      → load_rows acc (map some (to_snapshot t)) ≡ ok (acc ++ t)
  unfolding load_rows to_snapshot add
  load_rows-to_snapshot [] acc h n = ap ok (sym (append-nil acc))
  load_rows-to_snapshot ((k, r) ∷ t) acc h n =
      let fresh = insert_new k r acc n.0 in
      let written = subst (λ j. insert j r acc ≡ acc ++ (k, r) ∷ []) (sym h.0) fresh in
      let ih = load_rows-to_snapshot t (acc ++ (k, r) ∷ []) h.2 (Fresh-snoc acc t k r h.1 n.1) in
      rw (from_dict-to_dict r, written, ih) (ap ok (append_assoc acc ((k, r) ∷ []) t))

  -- A well-formed tracker that is written to a snapshot and read back is the same tracker, in the
  -- same order.
  pub from_snapshot-to_snapshot :
      (t : OrderTracker F) → IsTracker t → from_snapshot (map some (to_snapshot t)) ≡ ok t
  unfolding from_snapshot
  from_snapshot-to_snapshot t h = load_rows-to_snapshot t [] h (all_fresh t)
    where
      all_fresh : (t : OrderTracker F) → Fresh [] t
      all_fresh [] = tt
      all_fresh (x ∷ t) = (refl, all_fresh t)
