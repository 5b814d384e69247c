-- ===== src/Runtime/Marks/Observed.antt =====
-- The recorded marks through what a tick of runtime.py observes, and through its alerts and its saving.
use squeeze_hunter.Prelude.{
  ◌≡◌, ◌∙◌, refl, ap, inl, inr, Bool, true, false, ◌||◌, ◌&&◌, not, Option, none, some, List, [],
  ◌∷◌, ok, is_some, contains, arith, Bool-cases, Option-cases, Outcome-cases, map, if◌then◌else◌,
  ◌==◌,
}
use squeeze_hunter.Prelude.Dict.{Dict, has, keys}
use squeeze_hunter.Prelude.Floats.{Floats, nought}
use squeeze_hunter.Broker.{Ticker, Time}
use squeeze_hunter.Telemetry.{
  PortfolioTelemetry, record_equity, clear_position, record_broker_heartbeat, record_data_freshness,
}
use squeeze_hunter.Telemetry.Marks.{
  Covers, Covers-mono, clear_position-Covers, record_position-member,
}
use squeeze_hunter.Execution.Book.{Position, Book}
use squeeze_hunter.Execution.Orders.{open_orders}
use squeeze_hunter.Execution.Lifecycle.{is_transient}
use squeeze_hunter.Execution.Lifecycle.Process.{price_of}
use squeeze_hunter.Execution.Reconcile.{reconcile_book}
use squeeze_hunter.Execution.Reconcile.Marks.{held_in, reconcile_book-Covers}
use squeeze_hunter.Runtime.{RuntimeContext, ◌>>=◌, ◌>>◌, return, call, when, or_transient}
use squeeze_hunter.Runtime.Rules.{Keeps, >>=-Keeps, or_transient-Keeps, when-Keeps, if-Keeps}
use squeeze_hunter.Runtime.Services.{Services, Alert, Occasion}
use squeeze_hunter.Runtime.Persist.{persist, notify, snapshot}
use squeeze_hunter.Runtime.Tick.{
  ibkr_quotes, is_empty, clear_exited, reconciled, report_drift, reconcile_with_broker, note_health,
  check_health, mark_one, mark_all, mark_positions, mark_simulator, note_counts, note_equity,
  value_positions, after_health, observe,
}

module _ {F : Type 0} where
  -- No ticker outside the book has a mark that shows a gap.
  abbrev pub AreMarksHeld : RuntimeContext F → Type 0
  AreMarksHeld s = Covers (held_in s.lifecycle.positions) s.telemetry

  -- The tickers of the list that are held, and those of the book.
  abbrev pub listed_or_held : List Ticker → Book F → Ticker → Bool
  listed_or_held ts book j = contains j ts || has j book

  pub contains-keys : (j : Ticker) (book : Book F) → contains j (keys book) ≡ has j book
  contains-keys j [] = refl
  contains-keys j (e ∷ book) = ground (arith, contains-keys j book)

  pub clear_exited-Covers :
      (before : List Ticker) (book : Book F) (t : PortfolioTelemetry F)
      → Covers (listed_or_held before book) t
      → Covers (held_in book) (clear_exited before book t)
  clear_exited-Covers [] book t h = h
  clear_exited-Covers (x ∷ before) book t h = elim (Bool-cases (has x book)) [
    | inl held ↦
        rw (clear_exited, held)
          (clear_exited-Covers before book t (
            Covers-mono (listed_or_held (x ∷ before) book) (listed_or_held before book) t
              (λ j member. stays x j before book held member) h))
    | inr gone ↦
        rw (clear_exited, gone)
          (clear_exited-Covers before book (clear_position x t) (
            clear_position-Covers (listed_or_held (x ∷ before) book) (listed_or_held before book) x
              t (λ j other member. ground arith) h))
  ]
    where
      stays :
          (x j : Ticker) (before : List Ticker) (book : Book F)
          → has x book ≡ true
          → listed_or_held (x ∷ before) book j ≡ true
          → listed_or_held before book j ≡ true
      stays x j before book held member = elim (Bool-cases (j == x)) [
        | inl here ↦ let same : j ≡ x = ground arith in rw same (ground arith)
        | inr other ↦ ground arith
      ]

module _ {F Stamp W : Type 0} ⦃f : Floats F⦄ (svc : Services F Stamp W) where
  abbrev pub Held : RuntimeContext F → W → Type 0
  Held s w = AreMarksHeld s

  -- What leaves the daemon's state alone keeps every property of it.
  pub persist-Held : Keeps Held (persist svc)
  unfolding persist
  persist-Held s w h = elim (Option-cases svc.save) [
    | inl e ↦ rw (persist, e) h
    | inr (save, e) ↦
        rw (persist, e)
          (or_transient-Keeps Held (call (save (snapshot svc s))) tt (λ t v held. held) s w h)
  ]

  pub notify-Held : (alert : Alert F) → Keeps Held (notify svc alert)
  unfolding notify
  notify-Held alert s w h = elim (Option-cases svc.send) [
    | inl e ↦ rw (notify, e) h
    | inr (send, e) ↦
        rw (notify, e) (or_transient-Keeps Held (call (send alert)) tt (λ t v held. held) s w h)
  ]

  reconciled-Held : (full : Bool) → Keeps Held (reconciled svc full)
  unfolding reconciled
  reconciled-Held full s w h =
      let skip = map (λ r. r.ticker) (open_orders s.pending) in
      let pass = reconcile_book svc.broker full skip s.lifecycle.positions s.telemetry w in
      let covers =
        reconcile_book-Covers svc.broker full skip s.lifecycle.positions s.telemetry w h in
      elim (Outcome-cases pass.0) [
        | inl (done, r) ↦ rw (reconciled, r) covers
        | inr (x, r) ↦ rw (reconciled, r) covers
      ]

  reconcile_with_broker-Held :
      (full : Bool) (o : Occasion) → Keeps Held (reconcile_with_broker svc full o)
  unfolding reconcile_with_broker
  reconcile_with_broker-Held full o =
      if-Keeps Held (λ s. s.has_broker && not (svc.simulated && not (is_some svc.save)))
        (or_transient (reconciled svc full) [] >>= report_drift svc full o) (return tt)
        (>>=-Keeps Held (or_transient (reconciled svc full) []) (report_drift svc full o)
          (or_transient-Keeps Held (reconciled svc full) [] (reconciled-Held full))
          (λ drift.
            when-Keeps Held (full && not (is_empty drift)) (notify svc (Alert.reconciled o drift))
              (notify-Held (Alert.reconciled o drift))))
        (λ s w h. h)

  check_health-Held : (now : Time) → Keeps Held (check_health svc now)
  unfolding check_health record_broker_heartbeat record_data_freshness
  check_health-Held now =
      >>=-Keeps Held (or_transient (call svc.health) false) (note_health svc now)
        (or_transient-Keeps Held (call svc.health) false (λ s w h. h))
        (λ healthy s w h. noted now healthy (is_empty s.lifecycle.positions) s h)
    where
      noted :
          (now : Time) (healthy flat : Bool) (s : RuntimeContext F)
          → AreMarksHeld s
          → Covers (held_in s.lifecycle.positions) (
              let t = if healthy then record_broker_heartbeat now s.telemetry else s.telemetry in
              if healthy && flat then record_data_freshness ibkr_quotes now t else t)
      noted now true true s h = h
      noted now true false s h = h
      noted now false flat s h = h

  -- The book that is marked is the book of the daemon.
  abbrev HeldIn : Book F → RuntimeContext F → W → Type 0
  HeldIn book s w = (s.lifecycle.positions ≡ book) × AreMarksHeld s

  mark_one-HeldIn :
      (now : Time) (ticker : Ticker) (meta : Position F) (marks : Dict F) (book : Book F)
      → has ticker book ≡ true
      → Keeps (HeldIn book) (mark_one svc now (ticker, meta) marks)
  unfolding mark_one record_data_freshness
  mark_one-HeldIn now ticker meta marks book member s w (same, h) =
      let quoted = svc.broker.fetch_quote ticker w in
      elim (Outcome-cases quoted.0) [
        | inr (x, e) ↦ elim (Bool-cases (is_transient x)) [
          | inl c ↦ rw (mark_one, e, c) (same, h)
          | inr c ↦ rw (mark_one, e, c) (same, h)
        ]
        | inl (q, e) ↦ elim (Bool-cases (f.lt nought (price_of q))) [
          | inr c ↦ rw (mark_one, e, c) (same, h)
          | inl c ↦
              let here : has ticker s.lifecycle.positions ≡ true = ap (has ticker) same ∙ member in
              rw (mark_one, e, c)
                (
                  same,
                  record_position-member (held_in s.lifecycle.positions) ticker meta.entry_price
                      (price_of q) s.telemetry here h,
                )
        ]
      ]

  mark_all-HeldIn :
      (now : Time) (book rest : Book F) (marks : Dict F)
      → ((j : Ticker) → has j rest ≡ true → has j book ≡ true)
      → Keeps (HeldIn book) (mark_all svc now rest marks)
  unfolding mark_all
  mark_all-HeldIn now book [] marks inside s w h = h
  mark_all-HeldIn now book ((ticker, meta) ∷ rest) marks inside s w h =
      >>=-Keeps (HeldIn book) (mark_one svc now (ticker, meta) marks)
        (λ marks'. mark_all svc now rest marks')
        (mark_one-HeldIn now ticker meta marks book (inside ticker (ground arith)))
        (λ marks'. mark_all-HeldIn now book rest marks' (λ j held. inside j (ground arith))) s w h

  mark_positions-Held : (now : Time) (healthy : Bool) → Keeps Held (mark_positions svc now healthy)
  unfolding mark_positions
  mark_positions-Held now false s w h = h
  mark_positions-Held now true s w h =
      let book = s.lifecycle.positions in
      let (same, held) = mark_all-HeldIn now book book [] (λ j held. held) s w (refl, h) in held

  note_equity-Held : (now : Time) (healthy : Bool) → Keeps Held (note_equity svc now healthy)
  unfolding note_equity record_equity
  note_equity-Held now healthy =
      >>=-Keeps Held (or_transient (call svc.broker.get_equity_usd) none)
        (note_counts svc now healthy)
        (or_transient-Keeps Held (call svc.broker.get_equity_usd) none (λ s w h. h))
        (λ equity s w h. counted now healthy equity s w h)
    where
      counted :
          (now : Time) (healthy : Bool) (equity : Option F)
          → Keeps Held (note_counts svc now healthy equity)
      counted now healthy none s w h = h
      counted now healthy (some x) s w h = h

  pub observe-Held : (now : Time) → Keeps Held (observe svc now)
  unfolding observe value_positions
  observe-Held now =
      >>=-Keeps Held (check_health svc now) (after_health svc now) (check_health-Held now)
        (λ healthy.
          >>=-Keeps Held (when healthy (reconcile_with_broker svc false Occasion.tick))
            (λ done. value_positions svc now healthy)
            (when-Keeps Held healthy (reconcile_with_broker svc false Occasion.tick)
              (reconcile_with_broker-Held false Occasion.tick))
            (λ done.
              >>=-Keeps Held (mark_positions svc now healthy)
                (λ marks. (mark_simulator svc now marks >> note_equity svc now healthy))
                (mark_positions-Held now healthy)
                (λ marks.
                  >>=-Keeps Held (mark_simulator svc now marks)
                    (λ done. note_equity svc now healthy)
                    (if-Keeps Held (λ s. svc.simulated)
                      (λ s w. (ok tt, s, svc.mark_to_market marks now w)) (return tt) (λ s w h. h)
                      (λ s w h. h))
                    (λ done. note_equity-Held now healthy))))
