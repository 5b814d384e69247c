-- ===== src/Execution/Entries/Marks.antt =====
-- The entry path of execution/entries.py marks what it buys at the entry price.
use squeeze_hunter.Prelude.{
  ◌≡◌, inl, inr, Bool, ◌||◌, not, none, some, List, [], ◌∷◌, ok, arith, ltb, ◌==◌, ◌+◌, Bool-cases,
  Outcome-cases,
}
use squeeze_hunter.Prelude.Dict.{lookup}
use squeeze_hunter.Prelude.Floats.{Floats, nought}
use squeeze_hunter.Broker.{Ticker, OrderId, Time, BrokerOrder}
use squeeze_hunter.Risk.Killswitch.{day}
use squeeze_hunter.Telemetry.Marks.{Covers, record_position-flat}
use squeeze_hunter.Execution.Orders.{OrderRecord, is_terminal}
use squeeze_hunter.Execution.Lifecycle.{BrokerCalls, is_transient}
use squeeze_hunter.Execution.Entries.{
  EntryPath, EntryCfg, filled_of, entry_price_of, entry_position, finish_entry,
}
use squeeze_hunter.Execution.Entries.Settle.{
  note_order, finish_if_terminal, cancel_rest, settle_known, settle_one, settle_all, settle_pending,
  past_window,
}
use squeeze_hunter.Execution.Orders.{open_orders, update}

module _ {F : Type 0} ⦃f : Floats F⦄ (set : Ticker → Bool) where
  abbrev pub Marked : EntryPath F → Type 0
  Marked s = Covers set s.telemetry

  pub finish_entry-Marked :
      (rec : OrderRecord F) (s : EntryPath F) → Marked s → Marked (finish_entry rec s).1
  unfolding finish_entry
  finish_entry-Marked rec s h =
      let px = entry_price_of rec in
      elim (Bool-cases (filled_of rec == 0 || f.le px nought)) [
        | inl c ↦ rw (finish_entry, c) h
        | inr c ↦
            elim (Outcome-cases
              (entry_position rec (filled_of rec) px (lookup rec.ticker s.book))) [
                | inr (x, e) ↦ rw (finish_entry, c, e) h
                | inl (meta, e) ↦
                    rw (finish_entry, c, e) (record_position-flat set rec.ticker px s.telemetry h)
              ]
      ]

  note_order-Marked :
      (now : Time) (bo : BrokerOrder F) (rec updated : OrderRecord F) (s s' : EntryPath F)
      → note_order now bo rec s ≡ ok (updated, s')
      → Marked s
      → Marked s'
  unfolding note_order
  note_order-Marked now bo rec updated s s' e h = elim (Outcome-cases (update bo now s.pending)) [
    | inr (x, u) ↦ absurd (ground arith)
    | inl ((found, pending), u) ↦ let same : s'.telemetry ≡ s.telemetry = ground arith in rw same h
  ]

module _ {F W : Type 0} ⦃f : Floats F⦄ (set : Ticker → Bool) where
  finish_if_terminal-Marked :
      (updated : OrderRecord F) (s : EntryPath F) (w : W)
      → Marked set s
      → Marked set (finish_if_terminal updated s w).1
  unfolding finish_if_terminal
  finish_if_terminal-Marked updated s w h = elim (Bool-cases (is_terminal updated)) [
    | inl c ↦ rw (finish_if_terminal, c) (finish_entry-Marked set updated s h)
    | inr c ↦ rw (finish_if_terminal, c) h
  ]

module _ {F W : Type 0} ⦃f : Floats F⦄ (b : BrokerCalls F W) (cfg : EntryCfg F) (now : Time)
    (set : Ticker → Bool) where
  cancel_rest-Marked :
      (id : OrderId) (updated : OrderRecord F) (s : EntryPath F) (w : W)
      → Marked set s
      → Marked set (cancel_rest b cfg now id updated s w).1
  unfolding cancel_rest
  cancel_rest-Marked id updated s w h =
      let cancelled = b.cancel_order id w in
      let asked = b.get_order id cancelled.1 in
      elim (Outcome-cases cancelled.0) [
        | inr (x, e) ↦ elim (Bool-cases (is_transient x)) [
          | inl c ↦ rw (cancel_rest, e, c) h
          | inr c ↦ rw (cancel_rest, e, c) h
        ]
        | inl (done, e) ↦ elim (Outcome-cases asked.0) [
          | inr (x, r) ↦ elim (Bool-cases (is_transient x)) [
            | inl c ↦ rw (cancel_rest, e, r, c) h
            | inr c ↦ rw (cancel_rest, e, r, c) h
          ]
          | inl (none, r) ↦
              rw (cancel_rest, e, r) (finish_if_terminal-Marked set updated s asked.1 h)
          | inl (some bo, r) ↦ elim (Outcome-cases (note_order now bo updated s)) [
            | inr (x, n) ↦ rw (cancel_rest, e, r, n) h
            | inl ((rec, s'), n) ↦
                rw (cancel_rest, e, r, n)
                  (finish_if_terminal-Marked set rec s' asked.1
                    (note_order-Marked set now bo updated rec s s' n h))
          ]
        ]
      ]

  settle_known-Marked :
      (bo : BrokerOrder F) (rec : OrderRecord F) (s : EntryPath F) (w : W)
      → Marked set s
      → Marked set (settle_known b cfg now bo rec s w).1
  unfolding settle_known
  settle_known-Marked bo rec s w h = elim (Outcome-cases (note_order now bo rec s)) [
    | inr (x, e) ↦ rw (settle_known, e) h
    | inl ((updated, s'), e) ↦
        let h' = note_order-Marked set now bo rec updated s s' e h in
        elim (Bool-cases (is_terminal updated || not (past_window cfg now rec))) [
          | inl c ↦ rw (settle_known, e, c) (finish_if_terminal-Marked set updated s' w h')
          | inr c ↦ rw (settle_known, e, c) (cancel_rest-Marked rec.order_id updated s' w h')
        ]
  ]

  settle_one-Marked :
      (rec : OrderRecord F) (s : EntryPath F) (w : W)
      → Marked set s
      → Marked set (settle_one b cfg now rec s w).1
  unfolding settle_one
  settle_one-Marked rec s w h =
      let asked = b.get_order rec.order_id w in
      elim (Outcome-cases asked.0) [
        | inr (x, e) ↦ elim (Bool-cases (is_transient x)) [
          | inl c ↦ rw (settle_one, e, c) h
          | inr c ↦ rw (settle_one, e, c) h
        ]
        | inl (none, e) ↦ elim (Bool-cases (ltb (rec.submitted_at + day) now)) [
          | inl c ↦ rw (settle_one, e, c) h
          | inr c ↦ rw (settle_one, e, c) h
        ]
        | inl (some bo, e) ↦ rw (settle_one, e) (settle_known-Marked bo rec s asked.1 h)
      ]

  settle_all-Marked :
      (recs : List (OrderRecord F)) (s : EntryPath F) (w : W)
      → Marked set s
      → Marked set (settle_all b cfg now recs s w).1
  unfolding settle_all
  settle_all-Marked [] s w h = h
  settle_all-Marked (rec ∷ recs) s w h =
      let one = settle_one b cfg now rec s w in
      let h' = settle_one-Marked rec s w h in
      elim (Outcome-cases one.0) [
        | inl (done, e) ↦ rw (settle_all, e) (settle_all-Marked recs one.1 one.2 h')
        | inr (x, e) ↦ rw (settle_all, e) h'
      ]

  pub settle_pending-Marked :
      (s : EntryPath F) (w : W)
      → Covers set s.telemetry
      → Covers set (settle_pending b cfg now s w).1.telemetry
  unfolding settle_pending
  settle_pending-Marked s w h = settle_all-Marked (open_orders s.pending) s w h
