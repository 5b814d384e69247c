-- ===== src/Execution/Orders/Tracker.antt =====
-- The tracker of execution/orders.py as a map from order ids to records.
use squeeze_hunter.Prelude.{
  ◌≡◌, refl, ◌∙◌, Bool, false, not, Option, none, some, [], ◌∷◌, ok, if◌then◌else◌, ◌==◌,
  Option-cases, Outcome-cases, contains, map, inl, inr, arith,
}
use squeeze_hunter.Prelude.Dict.{
  lookup, has, insert, erase, lookup-insert, lookup-erase_ne, lookup-erase_self, IsDict,
}
use squeeze_hunter.Prelude.Floats.{Floats}
use squeeze_hunter.Broker.{OrderId, Time, BrokerOrder}
use squeeze_hunter.Execution.Orders.{
  OrderRecord, OrderTracker, is_terminal, apply, add, get, forget, open_orders, update,
}
use squeeze_hunter.Execution.Orders.Transitions.{apply-Follows}

module _ {F : Type 0} where
  -- Every record is filed under its own id, and no id twice.
  abbrev pub IsTracker : OrderTracker F → Type 0
  IsTracker [] = Unit
  IsTracker (e ∷ t) = (e.1.order_id ≡ e.0) × (has e.0 t ≡ false) × IsTracker t

  pub lookup-order_id :
      (k : OrderId) (t : OrderTracker F) (r : OrderRecord F)
      → IsTracker t
      → lookup k t ≡ some r
      → r.order_id ≡ k
  lookup-order_id k [] r h e = cc
  lookup-order_id k (x ∷ t) r h e = ground (arith, lookup-order_id k t r h.2)

  insert-IsTracker :
      (k : OrderId) (r : OrderRecord F) (t : OrderTracker F)
      → IsTracker t
      → r.order_id ≡ k
      → IsTracker (insert k r t)
  insert-IsTracker k r [] h e = (e, refl, tt)
  insert-IsTracker k r (x ∷ t) h e =
      ground (arith, insert-IsTracker k r t h.2 e, lookup-insert x.0 k r t)

  erase-IsTracker : (k : OrderId) (t : OrderTracker F) → IsTracker t → IsTracker (erase k t)
  erase-IsTracker k [] h = tt
  erase-IsTracker k (x ∷ t) h = ground (arith, erase-IsTracker k t h.2, lookup-erase_ne x.0 k t)

  pub IsTracker-IsDict : (t : OrderTracker F) → IsTracker t → IsDict t
  IsTracker-IsDict [] h = tt
  IsTracker-IsDict (x ∷ t) h = (h.1, IsTracker-IsDict t h.2)

  -- In a well-formed tracker: after `add` the new record is found under its id and every other id
  -- reads as before; after `forget` the id is gone and every other id reads as before. Both keep the
  -- tracker well formed.
  pub add-forget-get :
      (r : OrderRecord F) (gone j : OrderId) (t : OrderTracker F)
      → IsTracker t
      → (get j (add r t) ≡ (if j == r.order_id then some r else get j t))
        × (get j (forget gone t) ≡ (if j == gone then none else get j t))
        × IsTracker (add r t)
        × IsTracker (forget gone t)
  unfolding add forget get
  add-forget-get r gone j t h = (
    lookup-insert j r.order_id r t,
    ground (arith, lookup-erase_ne j gone t, lookup-erase_self gone t (IsTracker-IsDict t h)),
    insert-IsTracker r.order_id r t h refl,
    erase-IsTracker gone t h,
  )

  abbrev pub is_open : Option (OrderRecord F) → Bool
  is_open none = false
  is_open (some r) = not (is_terminal r)

  pub contains-open_orders_head :
      (t : OrderTracker F) (k : OrderId)
      → IsTracker t
      → has k t ≡ false
      → contains k (map (λ r. r.order_id) (open_orders t)) ≡ false
  unfolding open_orders
  contains-open_orders_head [] k h e = refl
  contains-open_orders_head (x ∷ t) k h e = ground (arith, contains-open_orders_head t k h.2)

  -- Of a well-formed tracker, `open` lists exactly the orders that it holds in a state that is not
  -- terminal.
  pub contains-open_orders :
      (t : OrderTracker F) (k : OrderId)
      → IsTracker t
      → contains k (map (λ r. r.order_id) (open_orders t)) ≡ is_open (get k t)
  unfolding open_orders get
  contains-open_orders [] k h = refl
  contains-open_orders (x ∷ t) k h =
      ground (arith, contains-open_orders t k h.2, contains-open_orders_head t k h.2)

module _ {F : Type 0} ⦃f : Floats F⦄ where
  -- The record before and after a report: none for an unknown order, else what `apply` returns.
  abbrev pub Applied :
      BrokerOrder F → Time → Option (OrderRecord F) → Option (OrderRecord F) → Type 0
  Applied bo now none none = Unit
  Applied bo now (some r) (some r') = apply r bo now ≡ ok r'
  Applied bo now _ _ = ⊥

  -- In a well-formed tracker a report that raises nothing changes the record of its own order alone, to what `apply` returns;
  -- an unknown order stays unknown, every other order reads as before, and the tracker stays well
  -- formed.
  pub update-get :
      (bo : BrokerOrder F) (now : Time) (t t' : OrderTracker F) {found : Option (OrderRecord F)}
      → IsTracker t
      → update bo now t ≡ ok (found, t')
      → IsTracker t'
        × Applied bo now (get bo.broker_order_id t) found
        × ((j : OrderId) → get j t' ≡ (if j == bo.broker_order_id then found else get j t))
  unfolding update get
  update-get bo now t t' {found} h e = elim (Option-cases (lookup bo.broker_order_id t)) [
    | inl unknown ↦ (ground arith, ground arith, λ j. ground arith)
    | inr (r, known) ↦ elim (Outcome-cases (apply r bo now)) [
      | inl (r', applied) ↦
          let id : r'.order_id ≡ bo.broker_order_id =
            (apply-Follows r bo now applied).same_id
            ∙ lookup-order_id bo.broker_order_id t r h known in
          let kept = insert-IsTracker r'.order_id r' t h refl in
          let written : insert r'.order_id r' t ≡ t' = ground arith in
          (rw written at kept, ground arith, λ j. ground (arith, lookup-insert j r'.order_id r' t))
      | inr (x, failed) ↦ ground arith
    ]
  ]
