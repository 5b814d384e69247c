-- ===== src/Execution/Orders/Open.antt =====
-- The open orders of a tracker of execution/orders.py, and emptying it of them.
use squeeze_hunter.Prelude.{
  ◌≡◌, refl, true, false, Option, none, some, List, [], ◌∷◌, if◌then◌else◌, ◌==◌, contains, map,
  arith, inl, inr, Bool-cases, List-cases,
}
use squeeze_hunter.Prelude.Dict.{has}
use squeeze_hunter.Broker.{OrderId}
use squeeze_hunter.Execution.Orders.{OrderRecord, OrderTracker, is_terminal, get, open_orders}
use squeeze_hunter.Execution.Orders.Tracker.{
  IsTracker, is_open, contains-open_orders, contains-open_orders_head,
}

module _ {F : Type 0} where
  abbrev pub ids_of : List (OrderRecord F) → List OrderId
  ids_of recs = map (λ r. r.order_id) recs

  -- The ids of the records are distinct, and each is open in the tracker.
  abbrev pub AreOpen : List (OrderRecord F) → OrderTracker F → Type 0
  AreOpen [] pending = Unit
  AreOpen (rec ∷ recs) pending =
      (is_open (get rec.order_id pending) ≡ true)
      × (contains rec.order_id (ids_of recs) ≡ false)
      × AreOpen recs pending

  pub is_open-some :
      (o : Option (OrderRecord F))
      → is_open o ≡ true
      → (r : OrderRecord F) × (o ≡ some r) × (is_terminal r ≡ false)
  is_open-some none h = cc
  is_open-some (some r) h = (r, refl, ground arith)

  pub is_open-closed :
      (o : Option (OrderRecord F)) → is_open (if is_open o then none else o) ≡ false
  is_open-closed none = refl
  is_open-closed (some r) = ground arith

  pub AreOpen-kept :
      (id : OrderId) (recs : List (OrderRecord F)) (t t' : OrderTracker F)
      → ((j : OrderId) → (j == id) ≡ false → get j t' ≡ get j t)
      → contains id (ids_of recs) ≡ false
      → AreOpen recs t
      → AreOpen recs t'
  AreOpen-kept id [] t t' same other opens = tt
  AreOpen-kept id (rec ∷ recs) t t' same other opens =
      let reads = same rec.order_id (ground arith) in
      (rw reads opens.0, opens.1, AreOpen-kept id recs t t' same (ground arith) opens.2)

  pub AreOpen-open_orders : (t : OrderTracker F) → IsTracker t → AreOpen (open_orders t) t
  unfolding open_orders get
  AreOpen-open_orders [] h = tt
  AreOpen-open_orders (x ∷ t) h =
      let rest =
        AreOpen-kept x.0 (open_orders t) t (x ∷ t) (λ j other. rw other refl)
          (contains-open_orders_head t x.0 h.2 h.1) (AreOpen-open_orders t h.2) in
      elim (Bool-cases (is_terminal x.1)) [
        | inl ended ↦ rw ended rest
        | inr still_open ↦
            let here : is_open (get x.1.order_id (x ∷ t)) ≡ true = ground (arith, h.0) in
            let absent : has x.1.order_id t ≡ false = rw h.0 h.1 in
            rw still_open (here, contains-open_orders_head t x.1.order_id h.2 absent, rest)
      ]

  pub open_orders-none :
      (t : OrderTracker F)
      → IsTracker t
      → ((j : OrderId) → is_open (get j t) ≡ false)
      → open_orders t ≡ []
  open_orders-none t h none_open = elim (List-cases (open_orders t)) [
    | inl e ↦ e
    | inr (r, rs, e) ↦
        let listed = contains-open_orders t r.order_id h in
        let shut = none_open r.order_id in absurd (ground arith)
  ]
