-- ===== src/Execution/Entries/Entered.antt =====
-- `execute_planned` of execution/entries.py marks what it buys at the entry price.
use squeeze_hunter.Prelude.{
  ℕ, inl, inr, Bool, some, List, [], ◌∷◌, Outcome, ltb, Bool-cases, Outcome-cases, List-cases,
}
use squeeze_hunter.Prelude.Int.{pos, pos_part, leb_ℤ}
use squeeze_hunter.Prelude.Dict.{has}
use squeeze_hunter.Prelude.Floats.{Floats, of_nat, floor_divide}
use squeeze_hunter.Broker.{Ticker, Side, Time, BrokerOrder}
use squeeze_hunter.Data.{Bar}
use squeeze_hunter.Execution.Pricing.{round_to_tick}
use squeeze_hunter.Execution.Orders.{OrderRecord, Purpose, is_terminal, from_broker_order}
use squeeze_hunter.Execution.Proposals.{EntryDecision}
use squeeze_hunter.Execution.Lifecycle.{BrokerCalls, is_transient}
use squeeze_hunter.Execution.Entries.{
  EntryPath, EntryCfg, unusable, reference, buy, enter_one, enter_all, execute_planned, window_open,
}
use squeeze_hunter.Execution.Entries.Marks.{Marked, finish_entry-Marked}

module _ {F W : Type 0} ⦃f : Floats F⦄ (b : BrokerCalls F W) (cfg : EntryCfg F) (simulated : Bool)
    (fetch_bars : Ticker → Time → Time → Outcome (List (Bar F))) (now : Time)
    (set : Ticker → Bool) where
  abbrev record_of : EntryDecision F → BrokerOrder F → OrderRecord F
  record_of d order =
      from_broker_order order Purpose.entry now (record {
        score = some d.score;
        setup_type = some d.setup_type;
        size_usd = some d.size_usd;
      })

  buy-Marked :
      (d : EntryDecision F) (ref : F) (qty : ℕ) (s : EntryPath F) (w : W)
      → Marked set s
      → Marked set (buy b cfg simulated fetch_bars now d ref qty s w).1
  unfolding buy
  buy-Marked d ref qty s w h =
      let raised_price =
        f.mul ref (f.add (of_nat 1) (f.quotient cfg.entry_limit_bps (of_nat 10000))) in
      elim (Outcome-cases (round_to_tick raised_price Side.buy)) [
        | inr (x, e) ↦ rw (buy, e) h
        | inl (limit, e) ↦ elim (Outcome-cases (b.submit_buy d.ticker qty (some limit) now w).0) [
          | inr (x, r) ↦ rw (buy, e, r) h
          | inl (order, r) ↦ elim (Bool-cases (is_terminal (record_of d order))) [
            | inl c ↦ rw (buy, e, r, c) (finish_entry-Marked set (record_of d order) s h)
            | inr c ↦ rw (buy, e, r, c) h
          ]
        ]
      ]

  enter_one-Marked :
      (d : EntryDecision F) (s : EntryPath F) (w : W)
      → Marked set s
      → Marked set (enter_one b cfg simulated fetch_bars now d s w).1
  unfolding enter_one
  enter_one-Marked d s w h =
      let quoted = b.fetch_quote d.ticker w in
      elim (Bool-cases (has d.ticker s.book)) [
        | inl c ↦ rw (enter_one, c) h
        | inr c ↦ elim (Outcome-cases quoted.0) [
          | inr (x, e) ↦ elim (Bool-cases (is_transient x)) [
            | inl t ↦ rw (enter_one, c, e, t) h
            | inr t ↦ rw (enter_one, c, e, t) h
          ]
          | inl (q, e) ↦
              elim (Outcome-cases (reference b cfg simulated fetch_bars now d.ticker q)) [
                | inr (x, r) ↦ rw (enter_one, c, e, r) h
                | inl (ref, r) ↦ elim (Bool-cases (unusable ref)) [
                  | inl u ↦ rw (enter_one, c, e, r, u) h
                  | inr u ↦ elim (Outcome-cases (floor_divide d.size_usd ref)) [
                    | inr (x, n) ↦ rw (enter_one, c, e, r, u, n) h
                    | inl (qty, n) ↦ elim (Bool-cases (leb_ℤ qty (pos 0))) [
                      | inl z ↦ rw (enter_one, c, e, r, u, n, z) h
                      | inr z ↦
                          rw (enter_one, c, e, r, u, n, z)
                            (buy-Marked d ref (pos_part qty) s quoted.1 h)
                    ]
                  ]
                ]
              ]
        ]
      ]

  enter_all-Marked :
      (ds : List (EntryDecision F)) (s : EntryPath F) (w : W)
      → Marked set s
      → Marked set (enter_all b cfg simulated fetch_bars now ds s w).1
  unfolding enter_all
  enter_all-Marked [] s w h = h
  enter_all-Marked (d ∷ ds) s w h =
      let one = enter_one b cfg simulated fetch_bars now d s w in
      let h' = enter_one-Marked d s w h in
      elim (Outcome-cases one.0) [
        | inl (done, e) ↦ rw (enter_all, e) (enter_all-Marked ds one.1 one.2 h')
        | inr (x, e) ↦ rw (enter_all, e) h'
      ]

  pub execute_planned-Marked :
      (kill_active : Bool) (s : EntryPath F) (w : W)
      → Marked set s
      → Marked set (execute_planned b cfg simulated fetch_bars now kill_active s w).1
  unfolding execute_planned
  execute_planned-Marked kill_active s w h = elim (List-cases s.planned) [
    | inl e ↦ rw (execute_planned, e) h
    | inr (d, ds, e) ↦ elim (Bool-cases (ltb (cfg.wall now) (window_open cfg now))) [
      | inl early ↦ rw (execute_planned, e, early) h
      | inr open_now ↦ elim (Bool-cases kill_active) [
        | inl off ↦ rw (execute_planned, e, open_now, off) h
        | inr on ↦
            rw (execute_planned, e, open_now, on)
              (enter_all-Marked (d ∷ ds) (record s { planned = [] }) w h)
      ]
    ]
  ]
