-- ===== src/Broker/Simulator/Runs.antt =====
-- Runs of orders at the broker of broker/simulator.py.
use squeeze_hunter.Prelude.{
  ℕ, ◌+◌, ◌-◌, ◌≡◌, ◌++◌, ◌&&◌, not, Exception, ◌⊎◌, ◌≤◌, Bool-cases, refl, inl, inr, Bool, true,
  false, Option, List, [], ◌∷◌, Outcome, ok, raised, if◌then◌else◌, ◌==◌, arith,
}
use squeeze_hunter.Prelude.Dict.{IsDict}
use squeeze_hunter.Prelude.Floats.{Floats}
use squeeze_hunter.Broker.{Ticker, OrderId, Time, Side, BrokerOrder}
use squeeze_hunter.Broker.Simulator.{SimulatorBroker, position_qty, submit_buy, submit_sell}
use squeeze_hunter.Broker.Simulator.Balance.{IsFill, Counts, submit_buy-Counts, submit_sell-Counts}

-- One call of `submit_buy` or `submit_sell`.
pub record Request (F : Type 0) : Type 0 where
  pub id : OrderId
  pub side : Side
  pub ticker : Ticker
  pub qty : ℕ
  pub limit_price : Option F
  pub ts : Time
  pub is_open_5min : Bool

abbrev is_buy : Side → Bool
is_buy Side.buy = true
is_buy Side.sell = false

module _ {F : Type 0} where
  -- The shares of a ticker that a list of orders bought, and that it sold.
  abbrev pub bought : Ticker → List (BrokerOrder F) → ℕ
  bought t [] = 0
  bought t (o ∷ os) = (if t == o.ticker && is_buy o.side then o.filled_qty else 0) + bought t os

  abbrev pub sold : Ticker → List (BrokerOrder F) → ℕ
  sold t [] = 0
  sold t (o ∷ os) = (if t == o.ticker && not (is_buy o.side) then o.filled_qty else 0) + sold t os

module _ {F : Type 0} ⦃f : Floats F⦄ where
  abbrev submit_as :
      Side → Request F → SimulatorBroker F → Outcome (BrokerOrder F) × SimulatorBroker F
  submit_as Side.buy q s = submit_buy q.id q.ticker q.qty q.limit_price q.ts q.is_open_5min s
  submit_as Side.sell q s = submit_sell q.id q.ticker q.qty q.limit_price q.ts q.is_open_5min s

  -- The orders that came back from a run of requests; one that raises leaves none, and the run
  -- goes on.
  pub fills : List (Request F) → SimulatorBroker F → List (BrokerOrder F) × SimulatorBroker F
  fills [] s = ([], s)
  fills (q ∷ qs) s =
      let (r, s₁) = submit_as q.side q s in
      let (os, s₂) = fills qs s₁ in elim r [ ok o ↦ (o ∷ os, s₂) | raised _ ↦ (os, s₂) ]

  abbrev pub Balanced : SimulatorBroker F → List (BrokerOrder F) → SimulatorBroker F → Type 0
  Balanced s os s' = (t : Ticker) → position_qty s' t + sold t os ≡ position_qty s t + bought t os

  buy-Balanced :
      (o : BrokerOrder F) (ticker : Ticker) (qty : ℕ) (s s' : SimulatorBroker F)
      → IsFill o ticker Side.buy qty
      → Counts s s' ticker (position_qty s ticker + qty)
      → Balanced s (o ∷ []) s'
  buy-Balanced o ticker qty s s' (tk, sd, fq, _) counts t = elim (Bool-cases (t == ticker)) [
    | inl e ↦
        let same : t ≡ ticker = ground arith in rw (counts t, tk, sd, fq, e) (rw same (omega arith))
    | inr e ↦ rw (counts t, tk, sd, fq, e) (omega arith)
  ]

  sell-Balanced :
      (o : BrokerOrder F) (ticker : Ticker) (qty : ℕ) (s s' : SimulatorBroker F)
      → IsFill o ticker Side.sell qty
      → qty ≤ position_qty s ticker
      → Counts s s' ticker (position_qty s ticker - qty)
      → Balanced s (o ∷ []) s'
  sell-Balanced o ticker qty s s' (tk, sd, fq, _) enough counts t =
      elim (Bool-cases (t == ticker)) [
        | inl e ↦
            let same : t ≡ ticker = ground arith in
            rw (counts t, tk, sd, fq, e) (rw same (omega arith))
        | inr e ↦ rw (counts t, tk, sd, fq, e) (omega arith)
      ]

  bought-append :
      (t : Ticker) (os ps : List (BrokerOrder F)) → bought t (os ++ ps) ≡ bought t os + bought t ps
  bought-append t [] ps = omega arith
  bought-append t (o ∷ os) ps = omega (arith, bought-append t os ps)

  sold-append :
      (t : Ticker) (os ps : List (BrokerOrder F)) → sold t (os ++ ps) ≡ sold t os + sold t ps
  sold-append t [] ps = omega arith
  sold-append t (o ∷ os) ps = omega (arith, sold-append t os ps)

  Balanced-trans :
      (s s₁ s₂ : SimulatorBroker F) (os ps : List (BrokerOrder F))
      → Balanced s os s₁
      → Balanced s₁ ps s₂
      → Balanced s (os ++ ps) s₂
  Balanced-trans s s₁ s₂ os ps here rest t =
      omega (arith, here t, rest t, bought-append t os ps, sold-append t os ps)

  -- One request: nothing came back and no shares moved, or one order did and accounts for the change.
  Stepped : SimulatorBroker F → Outcome (BrokerOrder F) → SimulatorBroker F → Type 0
  Stepped s r s' =
      IsDict s'.positions
      × (((e : Exception) × (r ≡ raised e) × Balanced s [] s')
          ⊎ ((o : BrokerOrder F) × (r ≡ ok o) × Balanced s (o ∷ []) s'))

  submit_as-Stepped :
      (side : Side) (q : Request F) (s : SimulatorBroker F)
      → IsDict s.positions
      → let (r, s') = submit_as side q s in Stepped s r s'
  unfolding Stepped
  submit_as-Stepped Side.buy q s d =
      elim (submit_buy-Counts q.id q.ticker q.qty q.limit_price q.ts q.is_open_5min s d) [
        | inl (x, r, same) ↦ (rw same d, inl (x, r, λ t. rw same refl))
        | inr (o, r, filled, counts, dict) ↦ (
          dict,
          inr (o, r, buy-Balanced o q.ticker q.qty s (submit_as Side.buy q s).1 filled counts),
        )
      ]
  submit_as-Stepped Side.sell q s d =
      elim (submit_sell-Counts q.id q.ticker q.qty q.limit_price q.ts q.is_open_5min s d) [
        | inl (r, same, _) ↦ (rw same d, inl (_, r, λ t. rw same refl))
        | inr (o, r, enough, filled, counts, dict) ↦ (
          dict,
          inr (
            o,
            r,
            sell-Balanced o q.ticker q.qty s (submit_as Side.sell q s).1 filled enough counts,
          ),
        )
      ]

  -- From a book with one lot for each ticker, over any run of buy and sell requests, some of which may
  -- raise: what a ticker has at the end and what the orders that came back sold of it are together
  -- what it had and what they bought. The book still has one lot for each ticker.
  pub fills-balance :
      (qs : List (Request F)) (s : SimulatorBroker F)
      → IsDict s.positions
      → let (os, s') = fills qs s in Balanced s os s' × IsDict s'.positions
  unfolding fills Stepped
  fills-balance [] s d = ((λ t. refl), d)
  fills-balance (q ∷ qs) s d =
      let (r, s₁) = submit_as q.side q s in
      let (dict, moved) = submit_as-Stepped q.side q s d in
      let (os, s') = fills qs s₁ in
      let (rest, dict') = fills-balance qs s₁ dict in
      elim moved [
        | inl (x, e, here) ↦ rw (fills, e) (Balanced-trans s s₁ s' [] os here rest, dict')
        | inr (o, e, here) ↦ rw (fills, e) (Balanced-trans s s₁ s' (o ∷ []) os here rest, dict')
      ]
