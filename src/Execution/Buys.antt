-- ===== src/Execution/Buys.antt =====
-- The buy orders that the broker is sent: the passes of execution/lifecycle.py, execution/reconcile.py
-- and `settle_pending` of execution/entries.py send none.
pub mod Managed
use squeeze_hunter.Prelude.{
  ℕ, ◌≡◌, ◌∙◌, refl, inl, inr, Bool, true, false, ◌||◌, not, Option, none, some, List, [], ◌∷◌, ok,
  arith, Bool-cases, Option-cases, Outcome-cases, contains,
}
use squeeze_hunter.Prelude.Dict.{Dict, has}
use squeeze_hunter.Prelude.Floats.{Floats, nought}
use squeeze_hunter.Broker.{Ticker, OrderId, Time, BrokerOrder}
use squeeze_hunter.Telemetry.{PortfolioTelemetry}
use squeeze_hunter.Execution.Book.{Book}
use squeeze_hunter.Execution.Orders.{OrderRecord, is_terminal}
use squeeze_hunter.Execution.Lifecycle.{BrokerCalls, is_transient}
use squeeze_hunter.Execution.Lifecycle.Quiet.{IsQuiet}
use squeeze_hunter.Execution.Entries.{EntryPath, EntryCfg, finish_entry, execute_planned}
use squeeze_hunter.Execution.Entries.Settle.{
  note_order, finish_if_terminal, cancel_rest, settle_known, settle_one, settle_all, settle_pending,
  past_window,
}
use squeeze_hunter.Execution.Reconcile.{
  Reconciliation, adoption_price, adopt_at, adopt_all, reconcile_book, at_broker, align,
}

-- A record of the world that no call of the broker changes but `submit_buy`.
pub record IsBuyLog {F W L : Type 0} (b : BrokerCalls F W) (log : W → L) : Type 0 where
  pub quiet : IsQuiet b log
  pub open quiet use *
  pub sell_quiet :
      (t : Ticker) (q : ℕ) (limit : Option F) (ts : Time) (w : W)
      → log (b.submit_sell t q limit ts w).1 ≡ log w
  pub order_quiet : (id : OrderId) (w : W) → log (b.get_order id w).1 ≡ log w
  pub positions_quiet : (w : W) → log (b.get_positions w).1 ≡ log w
  pub equity_quiet : (w : W) → log (b.get_equity_usd w).1 ≡ log w

module _ {F W L : Type 0} ⦃f : Floats F⦄ (b : BrokerCalls F W) (log : W → L)
    (h : IsBuyLog b log) where
  finish_if_terminal-quiet :
      (updated : OrderRecord F) (s : EntryPath F) (w : W) → (finish_if_terminal updated s w).2 ≡ w
  unfolding finish_if_terminal
  finish_if_terminal-quiet updated s w = ground arith

  module _ (cfg : EntryCfg F) (now : Time) where
    cancel_rest-quiet :
        (id : OrderId) (updated : OrderRecord F) (s : EntryPath F) (w : W)
        → log (cancel_rest b cfg now id updated s w).2 ≡ log w
    unfolding cancel_rest
    cancel_rest-quiet id updated s w =
        let cancelled = h.cancel_quiet id w in
        let w' = (b.cancel_order id w).1 in
        let asked = h.order_quiet id w' in
        let w'' = (b.get_order id w').1 in
        elim (Outcome-cases (b.cancel_order id w).0) [
          | inr (x, e) ↦ elim (Bool-cases (is_transient x)) [
            | inl c ↦ rw (cancel_rest, e, c) cancelled
            | inr c ↦ rw (cancel_rest, e, c) cancelled
          ]
          | inl (done, e) ↦ elim (Outcome-cases (b.get_order id w').0) [
            | inr (x, r) ↦ elim (Bool-cases (is_transient x)) [
              | inl c ↦ rw (cancel_rest, e, r, c) (asked ∙ cancelled)
              | inr c ↦ rw (cancel_rest, e, r, c) (asked ∙ cancelled)
            ]
            | inl (none, r) ↦
                rw (cancel_rest, e, r, finish_if_terminal-quiet updated s w'') (asked ∙ cancelled)
            | inl (some bo, r) ↦ elim (Outcome-cases (note_order now bo updated s)) [
              | inr (x, n) ↦ rw (cancel_rest, e, r, n) (asked ∙ cancelled)
              | inl ((rec, s'), n) ↦
                  rw (cancel_rest, e, r, n, finish_if_terminal-quiet rec s' w'') (asked ∙ cancelled)
            ]
          ]
        ]

    settle_known-quiet :
        (bo : BrokerOrder F) (rec : OrderRecord F) (s : EntryPath F) (w : W)
        → log (settle_known b cfg now bo rec s w).2 ≡ log w
    unfolding settle_known
    settle_known-quiet bo rec s w = elim (Outcome-cases (note_order now bo rec s)) [
      | inr (x, e) ↦ rw (settle_known, e) refl
      | inl ((updated, s'), e) ↦
          elim (Bool-cases (is_terminal updated || not (past_window cfg now rec))) [
            | inl c ↦ rw (settle_known, e, c, finish_if_terminal-quiet updated s' w) refl
            | inr c ↦ rw (settle_known, e, c) (cancel_rest-quiet rec.order_id updated s' w)
          ]
    ]

    settle_one-quiet :
        (rec : OrderRecord F) (s : EntryPath F) (w : W)
        → log (settle_one b cfg now rec s w).2 ≡ log w
    unfolding settle_one
    settle_one-quiet rec s w =
        let asked = h.order_quiet rec.order_id w in
        let w' = (b.get_order rec.order_id w).1 in
        elim (Outcome-cases (b.get_order rec.order_id w).0) [
          | inr (x, e) ↦ ground arith
          | inl (none, e) ↦ ground arith
          | inl (some bo, e) ↦ rw (settle_one, e) (settle_known-quiet bo rec s w' ∙ asked)
        ]

    settle_all-quiet :
        (recs : List (OrderRecord F)) (s : EntryPath F) (w : W)
        → log (settle_all b cfg now recs s w).2 ≡ log w
    unfolding settle_all
    settle_all-quiet [] s w = refl
    settle_all-quiet (rec ∷ recs) s w =
        let one = settle_one b cfg now rec s w in
        let here = settle_one-quiet rec s w in
        elim (Outcome-cases one.0) [
          | inl (done, e) ↦ rw (settle_all, e) (settle_all-quiet recs one.1 one.2 ∙ here)
          | inr (x, e) ↦ rw (settle_all, e) here
        ]

    pub settle_pending-quiet :
        (s : EntryPath F) (w : W) → log (settle_pending b cfg now s w).2 ≡ log w
    unfolding settle_pending
    settle_pending-quiet s w = settle_all-quiet _ s w

  adoption_price-quiet : (t : Ticker) (cost : F) (w : W) → log (adoption_price b t cost w).1 ≡ log w
  unfolding adoption_price
  adoption_price-quiet t cost w = ground (arith, h.quote_quiet t w)

  adopt_all-quiet :
      (skip : List Ticker) (held : Dict (ℕ × F)) (r : Reconciliation F) (w : W)
      → log (adopt_all b skip held r w).2 ≡ log w
  unfolding adopt_all
  adopt_all-quiet skip [] r w = refl
  adopt_all-quiet skip ((t, q) ∷ rest) r w = elim (Bool-cases (has t r.book || contains t skip)) [
    | inl known ↦ rw (adopt_all, known) (adopt_all-quiet skip rest r w)
    | inr new ↦
        let priced = adoption_price b t q.1 w in
        let here = adoption_price-quiet t q.1 w in
        elim (Outcome-cases priced.0) [
          | inr (x, e) ↦ rw (adopt_all, new, e) here
          | inl (px, e) ↦
              rw (adopt_all, new, e)
                (adopt_all-quiet skip rest (adopt_at t q.0 px r) priced.1 ∙ here)
        ]
  ]

  pub reconcile_book-quiet :
      (full : Bool) (skip : List Ticker) (book : Book F) (t : PortfolioTelemetry F) (w : W)
      → log (reconcile_book b full skip book t w).2 ≡ log w
  unfolding reconcile_book
  reconcile_book-quiet full skip book t w =
      let listed = b.get_positions w in
      let here = h.positions_quiet w in
      elim (Outcome-cases listed.0) [
        | inr (x, e) ↦ rw (reconcile_book, e) here
        | inl (snapshots, e) ↦
            let held = at_broker snapshots in
            rw (reconcile_book, e)
              (adopt_all-quiet skip held (align full held book t) listed.1 ∙ here)
      ]
