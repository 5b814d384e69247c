-- ===== src/Execution/Oms/Observed.antt =====
-- An observer of the calls that execution/oms.py makes of the broker.
use squeeze_hunter.Prelude.{
  ℕ, ◌≡◌, refl, inl, inr, Bool, true, false, ◌||◌, Option, none, some, Outcome, ok, raised,
  if◌then◌else◌, is_some, arith, Bool-cases,
}
use squeeze_hunter.Broker.{Ticker, OrderId, Time, BrokerOrder}
use squeeze_hunter.Execution.Lifecycle.{BrokerCalls}
use squeeze_hunter.Execution.Oms.{is_ended}
use squeeze_hunter.Execution.Oms.Working.{without, Sent, Told, IsSeen}

module _ {W : Type 0} (unsettled : W → Option OrderId) (overlap failed : W → Bool) where
  -- A call that shows the observer nothing.
  abbrev pub Unnoticed : W → W → Type 0
  Unnoticed w w' = (unsettled w' ≡ unsettled w) × (overlap w' ≡ overlap w) × (failed w' ≡ failed w)

  -- A call to cancel an order settles it if it returns. One that raises leaves it, and is noted.
  abbrev pub Cancelled : OrderId → W → Outcome Bool × W → Type 0
  Cancelled id w (ok done, w') =
      (unsettled w' ≡ without id (unsettled w)) × (overlap w' ≡ overlap w) × (failed w' ≡ failed w)
  Cancelled id w (raised e, w') =
      (unsettled w' ≡ unsettled w) × (overlap w' ≡ overlap w) × (failed w' ≡ true)

module _ {F W : Type 0} (unsettled : W → Option OrderId) (overlap failed : W → Bool) where
  -- An order is unsettled from its submission; the observer notes if it was sent while one was.
  abbrev pub Submitted : W → Outcome (BrokerOrder F) × W → Type 0
  Submitted w (raised e, w') = Unnoticed unsettled overlap failed w w'
  Submitted w (ok o, w') =
      (unsettled w' ≡ (if is_ended o.status then none else some o.broker_order_id))
      × (overlap w' ≡ (overlap w || is_some (unsettled w)))
      × (failed w' ≡ failed w)

  -- A report that the order has ended settles it.
  abbrev pub Reported : OrderId → W → Outcome (Option (BrokerOrder F)) × W → Type 0
  Reported id w (ok (some o), w') =
      (unsettled w' ≡ (if is_ended o.status then without id (unsettled w) else unsettled w))
      × (overlap w' ≡ overlap w)
      × (failed w' ≡ failed w)
  Reported id w (_, w') = Unnoticed unsettled overlap failed w w'

pub record IsObserved {F W : Type 0} (b : BrokerCalls F W) (sleep : F → W → W)
    (unsettled : W → Option OrderId) (overlap failed : W → Bool) : Type 0 where
  pub bought :
      (t : Ticker) (q : ℕ) (l : Option F) (ts : Time) (w : W)
      → Submitted unsettled overlap failed w (b.submit_buy t q l ts w)
  pub sold :
      (t : Ticker) (q : ℕ) (l : Option F) (ts : Time) (w : W)
      → Submitted unsettled overlap failed w (b.submit_sell t q l ts w)
  pub reported : (id : OrderId) (w : W) → Reported unsettled overlap failed id w (b.get_order id w)
  pub cancelled :
      (id : OrderId) (w : W) → Cancelled unsettled overlap failed id w (b.cancel_order id w)
  pub quoted : (t : Ticker) (w : W) → Unnoticed unsettled overlap failed w (b.fetch_quote t w).1
  pub slept : (s : F) (w : W) → Unnoticed unsettled overlap failed w (sleep s w)

module _ {F W : Type 0} (b : BrokerCalls F W) (sleep : F → W → W) (unsettled : W → Option OrderId)
    (overlap failed : W → Bool) (seen : IsObserved b sleep unsettled overlap failed) where
  -- What counts until a call to cancel has raised.
  abbrev pub counted : W → Option OrderId
  counted w = if failed w then none else unsettled w

  abbrev pub counted_overlap : W → Bool
  counted_overlap w = if failed w then false else overlap w

  unnoticed-quiet :
      (w w' : W)
      → Unnoticed unsettled overlap failed w w'
      → (counted w' ≡ counted w) × (counted_overlap w' ≡ counted_overlap w)
  unnoticed-quiet w w' (u, o, e) = (rw (u, e) refl, rw (o, e) refl)

  sent :
      (w : W) (r : Outcome (BrokerOrder F)) (w' : W)
      → Submitted unsettled overlap failed w (r, w')
      → Sent counted counted_overlap w (r, w')
  sent w (raised e) w' h = unnoticed-quiet w w' h
  sent w (ok o) w' (u, ov, e) = (
    rw (e, u) (alone (failed w) (is_ended o.status)),
    (λ ended. rw (e, u, ended) (ground arith)),
    λ clear free. rw (e, ov) (ground arith),
  )
    where
      alone :
          (gone ended : Bool)
          → without o.broker_order_id
              (if gone then none else (if ended then none else some o.broker_order_id))
            ≡ none
      alone true ended = refl
      alone false true = refl
      alone false false = ground arith

  told :
      (id : OrderId) (w : W) (r : Outcome (Option (BrokerOrder F))) (w' : W)
      → Reported unsettled overlap failed id w (r, w')
      → Told counted counted_overlap id w (r, w')
  told id w (raised e) w' h = unnoticed-quiet w w' h
  told id w (ok none) w' h = unnoticed-quiet w w' h
  told id w (ok (some o)) w' (u, ov, e) = (
    elim (Bool-cases (is_ended o.status)) [
      | inl ended ↦ elim (Bool-cases (failed w)) [
        | inl gone ↦ rw (e, u, ended, gone) refl
        | inr fine ↦ rw (e, u, ended, fine) refl
      ]
      | inr going ↦ rw (e, u, going) refl
    ],
    rw (e, ov) refl,
  )

  freed :
      (id : OrderId) (w : W) (r : Outcome Bool) (w' : W)
      → Cancelled unsettled overlap failed id w (r, w')
      → (without id (counted w) ≡ none → counted w' ≡ none)
        × (counted_overlap w ≡ false → counted_overlap w' ≡ false)
  freed id w (raised x) w' (u, ov, e) = ((λ h. rw e refl), λ h. rw e (ground arith))
  freed id w (ok done) w' (u, ov, e) = (
    (λ h. elim (Bool-cases (failed w)) [
      | inl gone ↦ rw (e, gone) refl
      | inr fine ↦ let h' = rw fine at h in rw (e, fine, u) h'
    ]),
    λ h. rw (e, ov) h,
  )

  pub IsObserved-IsSeen : IsSeen b sleep counted counted_overlap
  IsObserved-IsSeen = record {
    bought = λ t q l ts w.
        sent w (b.submit_buy t q l ts w).0 (b.submit_buy t q l ts w).1 (seen.bought t q l ts w);
    sold = λ t q l ts w.
        sent w (b.submit_sell t q l ts w).0 (b.submit_sell t q l ts w).1 (seen.sold t q l ts w);
    reported = λ id w. told id w (b.get_order id w).0 (b.get_order id w).1 (seen.reported id w);
    cancelled =
        λ id w. freed id w (b.cancel_order id w).0 (b.cancel_order id w).1 (seen.cancelled id w);
    quoted = λ t w. unnoticed-quiet w (b.fetch_quote t w).1 (seen.quoted t w);
    slept = λ s w. unnoticed-quiet w (sleep s w) (seen.slept s w);
  }
