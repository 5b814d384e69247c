-- ===== src/Execution/Lifecycle/Process.antt =====
-- `_process_one_position` and `manage_positions` of execution/lifecycle.py, stage by stage. A stage
-- takes the daemon's state and the broker's and gives both back, also when it raises.
use squeeze_hunter.Prelude.{
  ℕ, ◌-◌, Bool, true, false, not, ◌||◌, Option, none, some, List, [], ◌∷◌, ◌++◌, Outcome, ok,
  raised, if◌then◌else◌, contains, ◌==◌,
}
use squeeze_hunter.Prelude.Int.{ℤ, pos, pos_part, leb_ℤ, ltb_ℤ}
use squeeze_hunter.Prelude.Dict.{lookup, keys}
use squeeze_hunter.Prelude.Floats.{Floats, nought, or_else}
use squeeze_hunter.Broker.{Ticker, Side, Status, Time, Quote, BrokerOrder}
use squeeze_hunter.Risk.Stops.{Action, StopReason}
use squeeze_hunter.Execution.Book.{Position}
use squeeze_hunter.Execution.Pricing.{round_to_tick}
use squeeze_hunter.Execution.Decisions.{ExitDecision, from_quote, apply_exit_decision, decide_exit}
use squeeze_hunter.Execution.Lifecycle.{
  BrokerCalls, ExitReason, stopped, unnamed, reconciled_filled_exit, reconciled_filled_halve,
  ExitEntry, LifecycleState, is_transient, record_exit, put, pop,
}
use squeeze_hunter.Execution.Lifecycle.Cancel.{cancel_and_confirm}

-- `sig_reason or "exit"`
abbrev exit_reason : Option StopReason → ExitReason
exit_reason none = unnamed
exit_reason (some r) = stopped r

abbrev pub halve_pending : Option Action → Bool
halve_pending none = false
halve_pending (some a) = elim a [ Action.halve ↦ true | _ ↦ false ]

module _ {F : Type 0} ⦃f : Floats F⦄ where
  abbrev pub price_of : Quote F → F
  price_of q = or_else q.last (or_else q.bid q.ask)

module _ {F W : Type 0} ⦃f : Floats F⦄ (b : BrokerCalls F W) (now : Time) (ticker : Ticker) where
  abbrev exit_entry : ℕ → ExitReason → ExitEntry
  exit_entry qty reason = record { ts = now; ticker = ticker; qty = qty; reason = reason }

  -- The pending halve filled, at least in part: cancel the rest, and count it as done once the
  -- cancel is terminal.
  unfoldable pub reconcile_halve :
      Position F → ℕ → LifecycleState F → W → Outcome (Option (Position F)) × LifecycleState F × W
  reconcile_halve meta filled_qty s w =
      let (r, w') = cancel_and_confirm b meta.pending_exits w in
      elim r [
        | raised e ↦ (raised e, s, w')
        | ok confirmed ↦
            if not confirmed
            then (ok none, s, w')
            else (let meta' = record meta {
              halved = true;
              pending_exits = [];
              pending_action = none;
              pending_qty = none;
            } in
                (
                  ok (some meta'),
                  record_exit (exit_entry filled_qty reconciled_filled_halve) (put ticker meta' s),
                  w',
                ))
      ]

  -- The broker's quantity is the truth: flat closes the position, less is adopted.
  unfoldable pub reconcile_with :
      ℤ → Position F → LifecycleState F → W → Outcome (Option (Position F)) × LifecycleState F × W
  reconcile_with broker_qty meta s w =
      if leb_ℤ broker_qty (pos 0)
      then (ok none, pop ticker (record_exit (exit_entry meta.qty reconciled_filled_exit) s), w)
      else if ltb_ℤ broker_qty (pos meta.qty)
      then (let held = pos_part broker_qty in
          let meta' = record meta { qty = held } in
          if halve_pending meta.pending_action
          then reconcile_halve meta' (meta.qty - held) (put ticker meta' s) w
          else (ok (some meta'), put ticker meta' s, w))
      else (ok (some meta), s, w)

  unfoldable pub reconcile :
      Position F → LifecycleState F → W → Outcome (Option (Position F)) × LifecycleState F × W
  reconcile meta s w = elim meta.pending_exits [
    | [] ↦ (ok (some meta), s, w)
    | _ ∷ _ ↦
        let (r, w') = b.get_position_qty ticker w in
        elim r [
          | ok broker_qty ↦ reconcile_with broker_qty meta s w'
          | raised e ↦ if is_transient e then (ok none, s, w') else (raised e, s, w')
        ]
  ]

  -- What the submitted order's status says of the position.
  unfoldable pub settle_order :
      Position F → ExitDecision F → BrokerOrder F → LifecycleState F → LifecycleState F
  settle_order meta d order s =
      let entry = exit_entry d.qty (exit_reason d.reason) in
      let waiting =
        put ticker
          (record meta {
            pending_exits = meta.pending_exits ++ order.broker_order_id ∷ [];
            pending_action = some d.action;
            pending_qty = some d.qty;
          })
          s in
      let after_halve =
        put ticker
          (record meta {
            pending_action = none;
            pending_qty = none;
            qty = meta.qty - d.qty;
            halved = true;
          })
          (record_exit entry s) in
      elim order.status [
        | Status.filled ↦ elim d.action [
          | Action.exit ↦ pop ticker (record_exit entry s)
          | _ ↦ after_halve
        ]
        | Status.rejected ↦ s
        | Status.cancelled ↦ s
        | _ ↦ waiting
      ]

  -- The marketable limit, the order and its status.
  unfoldable pub submit :
      Position F
      → F
      → ExitDecision F
      → LifecycleState F
      → W
      → Outcome (Unit {0}) × LifecycleState F × W
  submit meta price d s w = elim (round_to_tick (f.mul price (f.dec 995 3)) Side.sell) [
    | raised e ↦ (raised e, s, w)
    | ok limit ↦
        let (r, w') = b.submit_sell ticker d.qty (some limit) now w in
        elim r [
          | raised e ↦ (raised e, s, w')
          | ok order ↦ (ok tt, settle_order meta d order s, w')
        ]
  ]

  -- An earlier exit order must be dead before a new one goes out.
  unfoldable pub replace_pending :
      Position F
      → F
      → ExitDecision F
      → LifecycleState F
      → W
      → Outcome (Unit {0}) × LifecycleState F × W
  replace_pending meta price d s w = elim meta.pending_exits [
    | [] ↦ submit meta price d s w
    | id ∷ ids ↦
        let (r, w') = cancel_and_confirm b (id ∷ ids) w in
        elim r [
          | raised e ↦ (raised e, s, w')
          | ok confirmed ↦
              if not confirmed
              then (ok tt, s, w')
              else (let meta' = record meta { pending_exits = [] } in
                  submit meta' price d (put ticker meta' s) w')
        ]
  ]

  -- The stops at the quoted price, the bookkeeping, and the order if there is to be one.
  unfoldable pub act_on_price :
      Position F → F → LifecycleState F → W → Outcome (Unit {0}) × LifecycleState F × W
  act_on_price meta price s w =
      if not (f.is_finite price) || f.le price nought
      then (ok tt, s, w)
      else elim (decide_exit meta (from_quote price) s.params) [
        | raised e ↦ (raised e, s, w)
        | ok d ↦
            let meta' = apply_exit_decision meta d in
            let s' = put ticker meta' s in
            elim d.action [ Action.hold ↦ (ok tt, s', w) | _ ↦ replace_pending meta' price d s' w ]
      ]

  unfoldable pub process_position :
      Position F → LifecycleState F → W → Outcome (Unit {0}) × LifecycleState F × W
  process_position meta s w =
      let (r, w₁) = b.fetch_quote ticker w in
      elim r [
        | raised e ↦ if is_transient e then (ok tt, s, w₁) else (raised e, s, w₁)
        | ok q ↦
            let (progress, s', w₂) = reconcile meta s w₁ in
            elim progress [
              | raised e ↦ (raised e, s', w₂)
              | ok next ↦ elim next [
                | none ↦ (ok tt, s', w₂)
                | some meta' ↦ act_on_price meta' (price_of q) s' w₂
              ]
            ]
      ]

  unfoldable pub process_one_position :
      LifecycleState F → W → Outcome (Unit {0}) × LifecycleState F × W
  process_one_position s w = elim (lookup ticker s.positions) [
    | none ↦ (ok tt, s, w)
    | some meta ↦ process_position meta s w
  ]

abbrev discard : Ticker → List Ticker → List Ticker
discard t [] = []
discard t (x ∷ xs) = if t == x then discard t xs else x ∷ discard t xs

module _ {F W : Type 0} ⦃f : Floats F⦄ (b : BrokerCalls F W) (now : Time) where
  -- One ticker under its in-flight mark, which is taken off also when the call raises.
  unfoldable pub manage_one :
      Ticker → LifecycleState F → W → Outcome (Unit {0}) × LifecycleState F × W
  manage_one ticker s w =
      if contains ticker s.in_flight
      then (ok tt, s, w)
      else (let (r, s', w') =
            process_one_position b now ticker (record s { in_flight = ticker ∷ s.in_flight }) w in
          (r, record s' { in_flight = discard ticker s'.in_flight }, w'))

  unfoldable pub manage_all :
      List Ticker → LifecycleState F → W → Outcome (Unit {0}) × LifecycleState F × W
  manage_all [] s w = (ok tt, s, w)
  manage_all (t ∷ ts) s w =
      let (r, s', w') = manage_one t s w in
      elim r [ ok _ ↦ manage_all ts s' w' | raised e ↦ (raised e, s', w') ]

  unfoldable pub manage_positions : LifecycleState F → W → Outcome (Unit {0}) × LifecycleState F × W
  unfolding manage_all
  manage_positions s w = manage_all (keys s.positions) s w
