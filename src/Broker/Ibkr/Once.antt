-- ===== src/Broker/Ibkr/Once.antt =====
-- The orders that broker/ibkr.py sends, by their keys.
use squeeze_hunter.Prelude.{
  ℕ, ◌≡◌, ◌≤◌, ◌+◌, refl, ap, ◌∙◌, inl, inr, Bool, true, false, Option, none, List, [], ◌∷◌,
  Outcome, ok, raised, arith, if◌then◌else◌, is_some, Bool-cases, Option-cases, Outcome-cases,
}
use squeeze_hunter.Prelude.Floats.{Floats}
use squeeze_hunter.Broker.{Ticker, Side, Time}
use squeeze_hunter.Broker.Ibkr.{
  ClientRef, Stock, Trade, NewOrder, IbkrBroker, Client, same_side, same_ref, client_ref,
  submitted_as, find_open_by_ref, make_stock,
}
use squeeze_hunter.Broker.Ibkr.Session.{place, place_new, truthy}

abbrev pub returned : {A : Type 0} → Outcome A → Bool
returned (ok a) = true
returned (raised e) = false

-- A log of the keys of the orders that the client has taken.
pub record IsOrderLog {F W : Type 0} (c : Client F W) (log : W → List ClientRef) : Type 0 where
  pub qualify_quiet : (stock : Stock) (w : W) → log (c.qualify_contracts stock w).1 ≡ log w
  pub taken :
      (stock : Stock) (order : NewOrder F) (trade : Trade F) (w : W)
      → (c.place_order stock order w).0 ≡ ok trade
      → log (c.place_order stock order w).1 ≡ order.order_ref ∷ log w
  pub not_taken :
      (stock : Stock) (order : NewOrder F) (w : W)
      → returned (c.place_order stock order w).0 ≡ false
      → log (c.place_order stock order w).1 ≡ log w

abbrev pub count_ref : ClientRef → List ClientRef → ℕ
count_ref r [] = 0
count_ref r (x ∷ xs) = let rest = count_ref r xs in if same_ref r x then 1 + rest else rest

same_side-eq : (a b : Side) → same_side a b ≡ true → a ≡ b
same_side-eq Side.buy Side.buy e = refl
same_side-eq Side.sell Side.sell e = refl
same_side-eq Side.buy Side.sell e = cc
same_side-eq Side.sell Side.buy e = cc

same_ref-eq : (r q : ClientRef) → same_ref r q ≡ true → r ≡ q
same_ref-eq r q e =
    let sides : r.side ≡ q.side = same_side-eq r.side q.side (ground arith) in
    let tickers : r.ticker ≡ q.ticker = ground arith in
    let qtys : r.qty ≡ q.qty = ground arith in
    let seconds : r.second ≡ q.second = ground arith in
    λ i. record { side = sides i; ticker = tickers i; qty = qtys i; second = seconds i }

-- One order that is asked for.
pub record Request (F : Type 0) : Type 0 where
  pub ticker : Ticker
  pub side : Side
  pub qty : ℕ
  pub limit_price : Option F
  pub ts : Time

-- The requests one after the other; whether they return or raise, the next one follows. Between two of
-- them the client goes on by itself.
abbrev pub place_all :
    {F W : Type 0}
    → ⦃f : Floats F⦄ → Client F W
    → (W → W)
    → List (Request F)
    → IbkrBroker F
    → W
    → IbkrBroker F × W
place_all c between [] s w = (s, w)
place_all c between (r ∷ rs) s w =
    let (done, s', w') = place c r.ticker r.side r.qty r.limit_price r.ts s w in
    place_all c between rs s' (between w')

module _ {F W : Type 0} ⦃f : Floats F⦄ (c : Client F W) (log : W → List ClientRef)
    (h : IsOrderLog c log) where
  -- Every key that was sent is kept, and was sent once.
  abbrev Once : IbkrBroker F → W → Type 0
  Once s w =
      (r : ClientRef)
      → count_ref r (log w) ≤ (if is_some (submitted_as r s.submitted_refs) then 1 else 0)

  place_new-Once :
      (ticker : Ticker) (side : Side) (qty : ℕ) (limit : Option F) (ref : ClientRef)
      (s : IbkrBroker F) (w : W)
      → submitted_as ref s.submitted_refs ≡ none
      → Once s w
      → let (r, s', w') = place_new c ticker side qty limit ref s w in Once s' w'
  unfolding place_new submitted_as
  place_new-Once ticker side qty limit ref s w fresh once =
      let stock = make_stock s ticker in
      let qualified = c.qualify_contracts stock w in
      let order : NewOrder F = record {
        action = side;
        qty = qty;
        limit_price = truthy c limit;
        order_ref = ref;
      } in
      let placed = c.place_order stock order qualified.1 in
      let quiet = h.qualify_quiet stock w in
      elim (Outcome-cases qualified.0) [
        | inr (x, e) ↦ rw (place_new, e) (λ r. rw quiet (once r))
        | inl (done, e) ↦ elim (Outcome-cases placed.0) [
          | inr (x, p) ↦
              rw (place_new, e, p)
                (λ r. rw (h.not_taken stock order qualified.1 (rw p refl), quiet) (once r))
          | inl (trade, p) ↦
              rw (place_new, e, p)
                (λ r.
                  rw (h.taken stock order trade qualified.1 p, quiet)
                    (elim (Bool-cases (same_ref r ref)) [
                      | inl same ↦
                          let here = same_ref-eq r ref same in
                          let before = once r in
                          let none_kept : submitted_as r s.submitted_refs ≡ none =
                            ap (λ q. submitted_as q s.submitted_refs) here ∙ fresh in
                          let bounded = rw none_kept at before in rw same (omega arith)
                      | inr apart ↦ rw apart (once r)
                    ]))
        ]
      ]

  place-Once :
      (ticker : Ticker) (side : Side) (qty : ℕ) (limit : Option F) (ts : Time) (s : IbkrBroker F)
      (w : W)
      → Once s w
      → let (r, s', w') = place c ticker side qty limit ts s w in Once s' w'
  unfolding place
  place-Once ticker side qty limit ts s w once =
      let ref = client_ref ticker side qty ts in
      elim (Option-cases (find_open_by_ref ref (c.open_trades w))) [
        | inr (existing, e) ↦ rw (place, e) once
        | inl e ↦ elim (Option-cases (submitted_as ref s.submitted_refs)) [
          | inr (id, k) ↦ rw (place, e, k) once
          | inl k ↦ rw (place, e, k) (place_new-Once ticker side qty limit ref s w k once)
        ]
      ]

  place_all-Once :
      (between : W → W) (rs : List (Request F)) (s : IbkrBroker F) (w : W)
      → ((v : W) → log (between v) ≡ log v)
      → Once s w
      → let (s', w') = place_all c between rs s w in Once s' w'
  place_all-Once between [] s w quiet once = once
  place_all-Once between (r ∷ rs) s w quiet once =
      let (done, s', w') = place c r.ticker r.side r.qty r.limit_price r.ts s w in
      let kept = place-Once r.ticker r.side r.qty r.limit_price r.ts s w once in
      place_all-Once between rs s' (between w') quiet (λ q. rw (quiet w') (kept q))

  -- In a session that has sent no order yet, and whatever orders are asked for, the client is sent at
  -- most one order for each side, ticker, quantity and second. The client logs what it takes, and changes
  -- the log by nothing else.
  pub place_all-once :
      (between : W → W) (rs : List (Request F)) (s : IbkrBroker F) (w : W)
      → ((v : W) → log (between v) ≡ log v)
      → log w ≡ []
      → (r : ClientRef) → count_ref r (log (place_all c between rs s w).1) ≤ 1
  place_all-once between rs s w quiet none_sent r =
      let start : Once s w = λ q. rw none_sent (omega arith) in
      let kept = place_all-Once between rs s w quiet start r in
      elim (Bool-cases (is_some (submitted_as r (place_all c between rs s w).0.submitted_refs))) [
        | inl e ↦ rw e at kept
        | inr e ↦ let never = rw e at kept in omega arith
      ]
