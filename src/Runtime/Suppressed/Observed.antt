-- ===== src/Runtime/Suppressed/Observed.antt =====
-- What a tick of runtime.py observes sends no buy order, nor do its alerts and its saving.
use squeeze_hunter.Prelude.{
  ◌≡◌, ◌∙◌, refl, inl, inr, Bool, true, false, ◌&&◌, not, none, some, List, [], ◌∷◌, Outcome, ok,
  is_some, Bool-cases, Option-cases, Outcome-cases, List-cases, map, ltb,
}
use squeeze_hunter.Prelude.Dict.{Dict}
use squeeze_hunter.Prelude.Floats.{Floats, nought}
use squeeze_hunter.Broker.{Ticker, Time}
use squeeze_hunter.Data.{Bar}
use squeeze_hunter.Execution.Book.{Position, Book}
use squeeze_hunter.Execution.Orders.{open_orders}
use squeeze_hunter.Execution.Lifecycle.{BrokerCalls, is_transient}
use squeeze_hunter.Execution.Lifecycle.Process.{price_of}
use squeeze_hunter.Execution.Reconcile.{reconcile_book}
use squeeze_hunter.Execution.Entries.{EntryPath, EntryCfg, execute_planned, window_open}
use squeeze_hunter.Execution.Buys.{IsBuyLog, reconcile_book-quiet}
use squeeze_hunter.Runtime.{
  RuntimeContext, RuntimeSnapshot, ◌>>=◌, ◌>>◌, return, call, when, or_transient,
}
use squeeze_hunter.Runtime.Rules.{Keeps, >>=-Keeps, or_transient-Keeps, when-Keeps, if-Keeps}
use squeeze_hunter.Runtime.Services.{Services, Alert, Occasion}
use squeeze_hunter.Runtime.Persist.{persist, notify, snapshot}
use squeeze_hunter.Runtime.Tick.{
  is_empty, reconciled, report_drift, reconcile_with_broker, note_health, check_health, mark_one,
  mark_all, mark_positions, mark_simulator, note_counts, note_equity, value_positions, after_health,
  observe,
}
use squeeze_hunter.Execution.Reconcile.{Drift}

-- A log of the buy orders, which none of the services changes but `submit_buy` of the broker.
pub record IsBuyRecord {F Stamp W L : Type 0} (svc : Services F Stamp W) (log : W → L)
    : Type 0 where
  pub orders : IsBuyLog svc.broker log
  pub health_quiet : (w : W) → log (svc.health w).1 ≡ log w
  pub marks_quiet :
      (marks : Dict F) (now : Time) (w : W) → log (svc.mark_to_market marks now w) ≡ log w
  pub send_quiet :
      (send : Alert F → W → Outcome (Unit {0}) × W) (alert : Alert F) (w : W)
      → svc.send ≡ some send
      → log (send alert w).1 ≡ log w
  pub save_quiet :
      (save : RuntimeSnapshot F Stamp → W → Outcome (Unit {0}) × W) (snap : RuntimeSnapshot F Stamp)
      (w : W)
      → svc.save ≡ some save
      → log (save snap w).1 ≡ log w

-- While the switch is active a plan is dropped, not executed.
pub execute_planned-suppressed :
    {F W : Type 0} ⦃f : Floats F⦄ (b : BrokerCalls F W) (cfg : EntryCfg F) (simulated : Bool)
    (fetch_bars : Ticker → Time → Time → Outcome (List (Bar F))) (now : Time) (s : EntryPath F)
    (w : W)
    → (execute_planned b cfg simulated fetch_bars now true s w).2 ≡ w
unfolding execute_planned
execute_planned-suppressed b cfg simulated fetch_bars now s w = elim (List-cases s.planned) [
  | inl e ↦ rw (execute_planned, e) refl
  | inr (d, ds, e) ↦ elim (Bool-cases (ltb (cfg.wall now) (window_open cfg now))) [
    | inl early ↦ rw (execute_planned, e, early) refl
    | inr open_now ↦ rw (execute_planned, e, open_now) refl
  ]
]

module _ {F Stamp W L : Type 0} ⦃f : Floats F⦄ (svc : Services F Stamp W) (log : W → L)
    (h : IsBuyRecord svc log) (bought : L) where
  -- Nothing more has been bought.
  abbrev pub Same : RuntimeContext F → W → Type 0
  Same s w = log w ≡ bought

  pub persist-Same : Keeps Same (persist svc)
  unfolding persist
  persist-Same s w e = elim (Option-cases svc.save) [
    | inl missing ↦ rw (persist, missing) e
    | inr (save, given) ↦
        rw (persist, given)
          (or_transient-Keeps Same (call (save (snapshot svc s))) tt
            (λ t v same. h.save_quiet save (snapshot svc s) v given ∙ same) s w e)
  ]

  pub notify-Same : (alert : Alert F) → Keeps Same (notify svc alert)
  unfolding notify
  notify-Same alert s w e = elim (Option-cases svc.send) [
    | inl missing ↦ rw (notify, missing) e
    | inr (send, given) ↦
        rw (notify, given)
          (or_transient-Keeps Same (call (send alert)) tt
            (λ t v same. h.send_quiet send alert v given ∙ same) s w e)
  ]

  reconciled-Same : (full : Bool) → Keeps Same (reconciled svc full)
  unfolding reconciled
  reconciled-Same full s w e =
      let skip = map (λ r. r.ticker) (open_orders s.pending) in
      let pass = reconcile_book svc.broker full skip s.lifecycle.positions s.telemetry w in
      let quiet =
        reconcile_book-quiet svc.broker log h.orders full skip s.lifecycle.positions s.telemetry
          w in
      elim (Outcome-cases pass.0) [
        | inl (done, r) ↦ rw (reconciled, r) (quiet ∙ e)
        | inr (x, r) ↦ rw (reconciled, r) (quiet ∙ e)
      ]

  report_drift-Same :
      (full : Bool) (o : Occasion) (drift : List Drift) → Keeps Same (report_drift svc full o drift)
  report_drift-Same full o drift =
      when-Keeps Same (full && not (is_empty drift)) (notify svc (Alert.reconciled o drift))
        (notify-Same (Alert.reconciled o drift))

  reconcile_with_broker-Same :
      (full : Bool) (o : Occasion) → Keeps Same (reconcile_with_broker svc full o)
  unfolding reconcile_with_broker
  reconcile_with_broker-Same full o =
      if-Keeps Same (λ s. s.has_broker && not (svc.simulated && not (is_some svc.save)))
        (or_transient (reconciled svc full) [] >>= report_drift svc full o) (return tt)
        (>>=-Keeps Same (or_transient (reconciled svc full) []) (report_drift svc full o)
          (or_transient-Keeps Same (reconciled svc full) [] (reconciled-Same full))
          (report_drift-Same full o))
        (λ s w e. e)

  check_health-Same : (now : Time) → Keeps Same (check_health svc now)
  unfolding check_health
  check_health-Same now =
      >>=-Keeps Same (or_transient (call svc.health) false) (note_health svc now)
        (or_transient-Keeps Same (call svc.health) false (λ s w e. h.health_quiet w ∙ e))
        (λ healthy s w e. e)

  mark_one-Same :
      (now : Time) (e : Ticker × Position F) (marks : Dict F)
      → Keeps Same (mark_one svc now e marks)
  unfolding mark_one
  mark_one-Same now e marks s w same =
      let quoted = svc.broker.fetch_quote e.0 w in
      let quiet = h.orders.quote_quiet e.0 w ∙ same in
      elim (Outcome-cases quoted.0) [
        | inr (x, r) ↦ elim (Bool-cases (is_transient x)) [
          | inl c ↦ rw (mark_one, r, c) quiet
          | inr c ↦ rw (mark_one, r, c) quiet
        ]
        | inl (q, r) ↦ elim (Bool-cases (f.lt nought (price_of q))) [
          | inl c ↦ rw (mark_one, r, c) quiet
          | inr c ↦ rw (mark_one, r, c) quiet
        ]
      ]

  mark_all-Same :
      (now : Time) (book : Book F) (marks : Dict F) → Keeps Same (mark_all svc now book marks)
  unfolding mark_all
  mark_all-Same now [] marks s w same = same
  mark_all-Same now (e ∷ book) marks s w same =
      >>=-Keeps Same (mark_one svc now e marks) (λ marks'. mark_all svc now book marks')
        (mark_one-Same now e marks) (λ marks'. mark_all-Same now book marks') s w same

  value_positions-Same :
      (now : Time) (healthy : Bool) → Keeps Same (value_positions svc now healthy)
  unfolding value_positions mark_positions note_equity
  value_positions-Same now healthy =
      >>=-Keeps Same (mark_positions svc now healthy)
        (λ marks. (mark_simulator svc now marks >> note_equity svc now healthy))
        (if-Keeps Same (λ s. healthy) (λ s. mark_all svc now s.lifecycle.positions [] s) (return [])
          (λ s. mark_all-Same now s.lifecycle.positions [] s) (λ s w e. e))
        (λ marks.
          >>=-Keeps Same (mark_simulator svc now marks) (λ done. note_equity svc now healthy)
            (if-Keeps Same (λ s. svc.simulated) (λ s w. (ok tt, s, svc.mark_to_market marks now w))
              (return tt) (λ s w e. h.marks_quiet marks now w ∙ e) (λ s w e. e))
            (λ done.
              >>=-Keeps Same (or_transient (call svc.broker.get_equity_usd) none)
                (note_counts svc now healthy)
                (or_transient-Keeps Same (call svc.broker.get_equity_usd) none
                  (λ s w e. h.orders.equity_quiet w ∙ e))
                (λ equity s w e. e)))

  pub observe-Same : (now : Time) → Keeps Same (observe svc now)
  unfolding observe
  observe-Same now =
      >>=-Keeps Same (check_health svc now) (after_health svc now) (check_health-Same now)
        (λ healthy.
          >>=-Keeps Same (when healthy (reconcile_with_broker svc false Occasion.tick))
            (λ done. value_positions svc now healthy)
            (when-Keeps Same healthy (reconcile_with_broker svc false Occasion.tick)
              (reconcile_with_broker-Same false Occasion.tick))
            (λ done. value_positions-Same now healthy))
