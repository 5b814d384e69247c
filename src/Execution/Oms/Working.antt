-- ===== src/Execution/Oms/Working.antt =====
-- The slices of execution/oms.py are worked one at a time.
use squeeze_hunter.Prelude.{
  ℕ, zero, suc, ◌≡◌, refl, ap, ◌⊎◌, Exception, ◌∙◌, Bool, true, false, Option, none, some, Outcome,
  ok, raised, if◌then◌else◌, ◌==◌, inl, inr, Bool-cases, Outcome-cases,
}
use squeeze_hunter.Prelude.Floats.{Floats, nought}
use squeeze_hunter.Broker.{Ticker, OrderId, Time, BrokerOrder}
use squeeze_hunter.Execution.Lifecycle.{BrokerCalls, is_transient}
use squeeze_hunter.Execution.Oms.{
  is_ended, pause, max_polls, poll_until_ended, poll_cancelled, cancel_and_poll, await_terminal,
}

-- The order that is still working, once an order has ended or was cancelled.
abbrev pub without : OrderId → Option OrderId → Option OrderId
without id none = none
without id (some k) = if k == id then none else some k

told-cases {ℓ} :
    {A : Type ℓ} (o : Outcome (Option A))
    → (o ≡ ok none) ⊎ ((a : A) × (o ≡ ok (some a))) ⊎ ((e : Exception) × (o ≡ raised e))
told-cases (ok none) = inl refl
told-cases (ok (some a)) = inr (inl (a, refl))
told-cases (raised e) = inr (inr (e, refl))

module _ {F W : Type 0} (working : W → Option OrderId) (overlap : W → Bool) where
  -- What a submission does to the order that is still working, and to whether another was ever sent
  -- while one was.
  abbrev pub Sent : W → Outcome (BrokerOrder F) × W → Type 0
  Sent w (raised e, w') = (working w' ≡ working w) × (overlap w' ≡ overlap w)
  Sent w (ok o, w') =
      (without o.broker_order_id (working w') ≡ none)
      × (is_ended o.status ≡ true → working w' ≡ none)
      × (overlap w ≡ false → working w ≡ none → overlap w' ≡ false)

  abbrev pub Told : OrderId → W → Outcome (Option (BrokerOrder F)) × W → Type 0
  Told id w (ok (some o), w') =
      (working w' ≡ (if is_ended o.status then without id (working w) else working w))
      × (overlap w' ≡ overlap w)
  Told id w (_, w') = (working w' ≡ working w) × (overlap w' ≡ overlap w)

-- How the calls of the broker move what is working.
pub record IsSeen {F W : Type 0} (b : BrokerCalls F W) (sleep : F → W → W)
    (working : W → Option OrderId) (overlap : W → Bool) : Type 0 where
  pub bought :
      (t : Ticker) (q : ℕ) (l : Option F) (ts : Time) (w : W)
      → Sent working overlap w (b.submit_buy t q l ts w)
  pub sold :
      (t : Ticker) (q : ℕ) (l : Option F) (ts : Time) (w : W)
      → Sent working overlap w (b.submit_sell t q l ts w)
  pub reported : (id : OrderId) (w : W) → Told working overlap id w (b.get_order id w)
  pub cancelled :
      (id : OrderId) (w : W)
      → (without id (working w) ≡ none → working (b.cancel_order id w).1 ≡ none)
        × (overlap w ≡ false → overlap (b.cancel_order id w).1 ≡ false)
  pub quoted :
      (t : Ticker) (w : W)
      → (working (b.fetch_quote t w).1 ≡ working w) × (overlap (b.fetch_quote t w).1 ≡ overlap w)
  pub slept :
      (s : F) (w : W) → (working (sleep s w) ≡ working w) × (overlap (sleep s w) ≡ overlap w)

module _ {F W : Type 0} ⦃f : Floats F⦄ (b : BrokerCalls F W) (sleep : F → W → W)
    (working : W → Option OrderId) (overlap : W → Bool)
    (seen : IsSeen b sleep working overlap) where
  -- No order was sent while one was working, and after a call that returned none is working.
  abbrev pub OneAtATime {ℓ} : {A : Type ℓ} → Outcome A × W → Type 0
  OneAtATime (ok a, w) = (overlap w ≡ false) × (working w ≡ none)
  OneAtATime (raised e, w) = overlap w ≡ false

  -- After the polls for an order.
  abbrev Polled : OrderId → Outcome (BrokerOrder F × Bool) × W → Type 0
  Polled id (ok (o, ended), w) =
      (overlap w ≡ false) × (ended ≡ true → working w ≡ none) × (without id (working w) ≡ none)
  Polled id (raised e, w) = overlap w ≡ false

  pause-quiet :
      (s : F) (w : W)
      → (working (pause sleep s w) ≡ working w) × (overlap (pause sleep s w) ≡ overlap w)
  pause-quiet s w = elim (Bool-cases (f.lt nought s)) [
    | inl e ↦ rw e (seen.slept s w)
    | inr e ↦ rw e (refl, refl)
  ]

  poll_until_ended-Polled :
      (id : OrderId) (poll_s : F) (n : ℕ) (latest : BrokerOrder F) (w : W)
      → overlap w ≡ false
      → without id (working w) ≡ none
      → Polled id (poll_until_ended b sleep id poll_s n latest w)
  unfolding poll_until_ended
  poll_until_ended-Polled id poll_s zero latest w o h = (o, (λ c. cc), h)
  poll_until_ended-Polled id poll_s (suc n) latest w o h =
      let w1 = pause sleep poll_s w in
      let told = seen.reported id w1 in
      let (h1, o1) = pause-quiet poll_s w in
      let alone : without id (working w1) ≡ none = ap (without id) h1 ∙ h in
      elim (told-cases (b.get_order id w1).0) [
        | inl e ↦
            let (h2, o2) = rw e at told in
            rw (poll_until_ended, e) (o2 ∙ o1 ∙ o, (λ c. cc), ap (without id) h2 ∙ alone)
        | inr (inl (bo, e)) ↦
            let told' = rw e at told in
            elim (Bool-cases (is_ended bo.status)) [
              | inl ended ↦
                  let (h2, o2) = rw ended at told' in
                  let gone = h2 ∙ alone in
                  rw (poll_until_ended, e, ended) (o2 ∙ o1 ∙ o, (λ c. gone), ap (without id) gone)
              | inr going ↦
                  let (h2, o2) = rw going at told' in
                  rw (poll_until_ended, e, going)
                    (poll_until_ended-Polled id poll_s n bo (b.get_order id w1).1 (o2 ∙ o1 ∙ o)
                      (ap (without id) h2 ∙ alone))
            ]
        | inr (inr (x, e)) ↦
            let (h2, o2) = rw e at told in
            elim (Bool-cases (is_transient x)) [
              | inl caught ↦
                  rw (poll_until_ended, e, caught)
                    (o2 ∙ o1 ∙ o, (λ c. cc), ap (without id) h2 ∙ alone)
              | inr other ↦ rw (poll_until_ended, e, other) (o2 ∙ o1 ∙ o)
            ]
      ]

  poll_cancelled-OneAtATime :
      (id : OrderId) (poll_s : F) (n : ℕ) (latest : BrokerOrder F) (w : W)
      → overlap w ≡ false
      → working w ≡ none
      → OneAtATime (poll_cancelled b sleep id poll_s n latest w)
  unfolding poll_cancelled
  poll_cancelled-OneAtATime id poll_s zero latest w o h = (o, h)
  poll_cancelled-OneAtATime id poll_s (suc n) latest w o h =
      let told = seen.reported id w in
      elim (told-cases (b.get_order id w).0) [
        | inl e ↦ let (h2, o2) = rw e at told in rw (poll_cancelled, e) (o2 ∙ o, h2 ∙ h)
        | inr (inl (bo, e)) ↦
            let told' = rw e at told in
            let w' = (b.get_order id w).1 in
            elim (Bool-cases (is_ended bo.status)) [
              | inl ended ↦
                  let (h2, o2) = rw ended at told' in
                  let gone : without id (working w) ≡ none = rw h refl in
                  rw (poll_cancelled, e, ended) (o2 ∙ o, h2 ∙ gone)
              | inr going ↦
                  let (h2, o2) = rw going at told' in
                  let (h3, o3) = pause-quiet poll_s w' in
                  rw (poll_cancelled, e, going)
                    (poll_cancelled-OneAtATime id poll_s n bo (pause sleep poll_s w') (o3 ∙ o2 ∙ o)
                      (h3 ∙ h2 ∙ h))
            ]
        | inr (inr (x, e)) ↦
            let (h2, o2) = rw e at told in
            elim (Bool-cases (is_transient x)) [
              | inl caught ↦ rw (poll_cancelled, e, caught) (o2 ∙ o, h2 ∙ h)
              | inr other ↦ rw (poll_cancelled, e, other) (o2 ∙ o)
            ]
      ]

  cancel_and_poll-OneAtATime :
      (id : OrderId) (poll_s : F) (latest : BrokerOrder F) (w : W)
      → overlap w ≡ false
      → without id (working w) ≡ none
      → OneAtATime (cancel_and_poll b sleep id poll_s latest w)
  unfolding cancel_and_poll
  cancel_and_poll-OneAtATime id poll_s latest w o h =
      let (frees, keeps) = seen.cancelled id w in
      let h1 = frees h in
      let o1 = keeps o in
      elim (Outcome-cases (b.cancel_order id w).0) [
        | inl (done, e) ↦
            rw (cancel_and_poll, e)
              (poll_cancelled-OneAtATime id poll_s 20 latest (b.cancel_order id w).1 o1 h1)
        | inr (x, e) ↦ elim (Bool-cases (is_transient x)) [
          | inl caught ↦ rw (cancel_and_poll, e, caught) (o1, h1)
          | inr other ↦ rw (cancel_and_poll, e, other) o1
        ]
      ]

  pub await_terminal-OneAtATime :
      (order : BrokerOrder F) (budget_s poll_s : F) (w : W)
      → overlap w ≡ false
      → without order.broker_order_id (working w) ≡ none
      → (is_ended order.status ≡ true → working w ≡ none)
      → OneAtATime (await_terminal b sleep order budget_s poll_s w)
  unfolding await_terminal
  await_terminal-OneAtATime order budget_s poll_s w o h free =
      elim (Bool-cases (is_ended order.status)) [
        | inl ended ↦ rw (await_terminal, ended) (o, free ended)
        | inr going ↦
            let id = order.broker_order_id in
            elim (Outcome-cases (max_polls budget_s poll_s)) [
              | inr (x, e) ↦ rw (await_terminal, going, e) o
              | inl (polls, e) ↦
                  let polled = poll_until_ended-Polled id poll_s polls order w o h in
                  let w' = (poll_until_ended b sleep id poll_s polls order w).1 in
                  elim (Outcome-cases (poll_until_ended b sleep id poll_s polls order w).0) [
                    | inr (x, e') ↦ let o' = rw e' at polled in rw (await_terminal, going, e, e') o'
                    | inl ((latest, ended), e') ↦
                        let polled' = rw e' at polled in
                        elim (Bool-cases ended) [
                          | inl yes_ended ↦
                              rw (await_terminal, going, e, e', yes_ended)
                                (polled'.0, polled'.1 yes_ended)
                          | inr not_ended ↦
                              rw (await_terminal, going, e, e', not_ended)
                                (cancel_and_poll-OneAtATime id poll_s latest w' polled'.0 polled'.2)
                        ]
                  ]
            ]
      ]
