-- ===== src/Backtest/Days.antt =====
-- Whole days of backtest/runner.py keep the book and the simulator in step.
use squeeze_hunter.Prelude.{
  ℕ, ◌+◌, ◌≡◌, refl, sym, ◌∙◌, true, false, none, some, List, [], ◌∷◌, ok, IfOk, IfOk-mono,
  >>=-IfOk, if◌then◌else◌, ◌==◌, contains, keep, if_both, arith, inl, inr, Bool-cases, Option-cases,
}
use squeeze_hunter.Prelude.Dict.{
  Dict, lookup, has, insert, keys, IsDict, lookup_absent, lookup-insert, insert-IsDict,
}
use squeeze_hunter.Prelude.Floats.{Floats}
use squeeze_hunter.Broker.{Ticker, Time}
use squeeze_hunter.Broker.Simulator.{Lot, SimulatorBroker, mark_to_market, gross_exposure_pct}
use squeeze_hunter.Broker.Simulator.Holdings.{holding, qty_of_lot, mark_to_market-positions}
use squeeze_hunter.Data.{Bar}
use squeeze_hunter.Execution.Book.{Position, Book}
use squeeze_hunter.Execution.Decisions.{from_bar, decide_exit, apply_exit_decision}
use squeeze_hunter.Execution.Decisions.Exits.{decide_exit-OrderedBy}
use squeeze_hunter.Execution.Proposals.{EntryDecision, Candidate, propose_entries}
use squeeze_hunter.Execution.Proposals.Reservations.{IsFresh, propose_entries-IsWithin}
use squeeze_hunter.Execution.Reconcile.Adoption.{book_qty}
use squeeze_hunter.Telemetry.{record_equity, to_killswitch_inputs}
use squeeze_hunter.Backtest.{
  Backtest, BacktestInputs, is_hold, rescored, held_qtys, scores, end_of, recent_bars, fill_entries,
  manage_bar,
}
use squeeze_hunter.Backtest.InStep.{
  IsInStep, Keeps, AreNew, AreNew-same, tickers_of, insert-book_qty, OrderedBy-TakesFrom,
  fill_entries-IsInStep, sell_on-IsInStep,
}
use squeeze_hunter.Backtest.Day.{
  manage_one, manage_all, propose, propose_if_any, close_day, run_day, run_days,
}

module _ {F : Type 0} where
  -- A position written again with its shares.
  rebook-IsInStep :
      (t : Ticker) (meta : Position F) (book : Book F) (broker : SimulatorBroker F)
      → IsInStep book broker
      → book_qty t book ≡ some meta.qty
      → IsInStep (insert t meta book) broker
  rebook-IsInStep t meta book broker h has_meta = record {
    same_shares = λ j. insert-book_qty j t meta book ∙ elim (Bool-cases (j == t)) [
      | inl e ↦ let same : j ≡ t = ground arith in rw e (sym has_meta ∙ rw same (h.same_shares t))
      | inr e ↦ rw e (h.same_shares j)
    ];
    book_dict = insert-IsDict t meta book h.book_dict;
    lots_dict = h.lots_dict;
  }

  lookup-rescored :
      (j : Ticker) (ranked : Dict F) (book : Book F)
      → book_qty j (rescored ranked book) ≡ book_qty j book
  lookup-rescored j ranked [] = refl
  lookup-rescored j ranked ((t, meta) ∷ book) = ground (arith, lookup-rescored j ranked book)

  has-rescored :
      (j : Ticker) (ranked : Dict F) (book : Book F) → has j (rescored ranked book) ≡ has j book
  has-rescored j ranked [] = refl
  has-rescored j ranked ((t, meta) ∷ book) = ground (arith, has-rescored j ranked book)

  rescored-IsDict : (ranked : Dict F) (book : Book F) → IsDict book → IsDict (rescored ranked book)
  rescored-IsDict ranked [] d = d
  rescored-IsDict ranked ((t, meta) ∷ book) d =
      (has-rescored t ranked book ∙ d.0, rescored-IsDict ranked book d.1)

  rescored-IsInStep :
      (ranked : Dict F) (book : Book F) (broker : SimulatorBroker F)
      → IsInStep book broker
      → IsInStep (rescored ranked book) broker
  rescored-IsInStep ranked book broker h = record {
    same_shares = λ j. lookup-rescored j ranked book ∙ h.same_shares j;
    book_dict = rescored-IsDict ranked book h.book_dict;
    lots_dict = h.lots_dict;
  }

  lookup-held_qtys :
      (j : Ticker) (lots : Dict (Lot F)) → lookup j (held_qtys lots) ≡ qty_of_lot (lookup j lots)
  lookup-held_qtys j [] = refl
  lookup-held_qtys j ((t, lot) ∷ lots) = ground (arith, lookup-held_qtys j lots)

  abbrev accepted : List (EntryDecision F) → List (EntryDecision F)
  accepted ds = keep (λ d. d.accepted) ds

  -- What is accepted is new, and apart from what was held or accepted before.
  IsFresh-AreNew :
      (ds : List (EntryDecision F)) (held : Dict ℕ) (b : SimulatorBroker F)
      → ((j : Ticker) → has j held ≡ false → holding j b ≡ none)
      → IsFresh held ds
      → AreNew (accepted ds) b
        × ((j : Ticker) → has j held ≡ true → contains j (tickers_of (accepted ds)) ≡ false)
  IsFresh-AreNew [] held b none_held fresh = (tt, λ j h. refl)
  IsFresh-AreNew (d ∷ ds) held b none_held (new, fresh) = elim (Bool-cases d.accepted) [
    | inr declined ↦
        let fresh' : IsFresh held ds = rw declined at fresh in
        rw declined (IsFresh-AreNew ds held b none_held fresh')
    | inl taken ↦
        let fresh' : IsFresh (insert d.ticker 0 held) ds = rw taken at fresh in
        let new' : has d.ticker held ≡ false = rw taken at new in
        let (are_new, apart) =
          IsFresh-AreNew ds (insert d.ticker 0 held) b
            (λ j h. none_held j (ground (arith, lookup-insert j d.ticker 0 held))) fresh' in
        rw taken (
          (
            none_held d.ticker new',
            apart d.ticker (ground (arith, lookup-insert d.ticker d.ticker 0 held)),
            are_new,
          ),
          λ j h.
              let other = apart j (ground (arith, lookup-insert j d.ticker 0 held)) in ground arith,
        )
  ]

  -- In step, with the entries that wait for tomorrow new.
  abbrev pub IsReady : Backtest F → Type 0
  IsReady s = IsInStep s.book s.broker × AreNew s.pending_entries s.broker

module _ {F : Type 0} ⦃f : Floats F⦄ (inputs : BacktestInputs F) (day_label : Time) where
  manage_bar-IsInStep :
      (meta : Position F) (t : Ticker) (b : Bar F) (s : Backtest F)
      → IsInStep s.book s.broker
      → book_qty t s.book ≡ some meta.qty
      → IfOk (Keeps inputs day_label s) (manage_bar inputs day_label meta t b s)
  unfolding manage_bar apply_exit_decision
  manage_bar-IsInStep meta t b s h has_meta =
      let meta' : Position F = record meta {
        last_mark = some b.close;
        bars_held = meta.bars_held + 1;
      } in
      >>=-IfOk _ (decide_exit meta' (from_bar b) inputs.stop_params) _ λ d decided.
        let meta'' = apply_exit_decision meta' d in
        let kept = rebook-IsInStep t meta'' s.book s.broker h has_meta in
        let ordered = decide_exit-OrderedBy meta' (from_bar b) inputs.stop_params d decided in
        elim (Bool-cases (is_hold d.action)) [
          | inl e ↦ rw e (kept, refl)
          | inr e ↦
              let takes = OrderedBy-TakesFrom inputs day_label meta' d d.action refl ordered e in
              rw e (
                sell_on-IsInStep inputs day_label meta'' t d _ kept
                  (insert-book_qty t t meta'' s.book ∙ (ground arith)) takes)
        ]

  manage_one-IsInStep :
      (t : Ticker) (marks : Dict F) (s : Backtest F)
      → IsInStep s.book s.broker
      → IfOk (λ m. Keeps inputs day_label s m.1) (manage_one inputs day_label t (marks, s))
  unfolding manage_one
  manage_one-IsInStep t marks s h = elim (Option-cases (lookup t s.book)) [
    | inl e ↦ rw (manage_one, e) (h, refl)
    | inr (meta, e) ↦
        let has_meta : book_qty t s.book ≡ some meta.qty = rw e refl in
        rw (manage_one, e)
          (>>=-IfOk _ (recent_bars inputs day_label t) _ λ bar _. elim (Option-cases bar) [
            | inl none_today ↦ rw none_today (h, refl)
            | inr (b, today) ↦ rw today (
                >>=-IfOk _ (manage_bar inputs day_label meta t b s) _ λ s' managed.
                  let kept = manage_bar-IsInStep meta t b s h has_meta in
                  let kept' = rw managed at kept in kept')
          ])
  ]

  manage_all-IsInStep :
      (ts : List Ticker) (marks : Dict F) (s : Backtest F)
      → IsInStep s.book s.broker
      → IfOk (λ m. Keeps inputs day_label s m.1) (manage_all inputs day_label ts (marks, s))
  unfolding manage_all
  manage_all-IsInStep [] marks s h = (h, refl)
  manage_all-IsInStep (t ∷ ts) marks s h =
      >>=-IfOk _ (manage_one inputs day_label t (marks, s)) _ λ m managed.
        let one = manage_one-IsInStep t marks s h in
        let (h', same) = rw managed at one in
        let rest = manage_all-IsInStep ts m.0 m.1 h' in
        IfOk-mono (manage_all inputs day_label ts m) (λ m' k. (k.0, k.1 ∙ same)) rest

  marked-IsInStep :
      (marks : Dict F) (book : Book F) (broker : SimulatorBroker F)
      → IsInStep book broker
      → IsInStep book (mark_to_market marks broker)
  marked-IsInStep marks book broker h =
      let same = mark_to_market-positions marks broker in
      record {
        same_shares = λ j. rw same (h.same_shares j);
        book_dict = h.book_dict;
        lots_dict = rw same h.lots_dict;
      }

  propose-IsReady :
      (ranked : List (Candidate F)) (marks : Dict F) (s : Backtest F)
      → IsInStep s.book s.broker
      → s.pending_entries ≡ []
      → IfOk IsReady (propose inputs day_label ranked marks s)
  unfolding propose
  propose-IsReady ranked marks s h none_yet =
      let broker = mark_to_market marks s.broker in
      let same = mark_to_market-positions marks s.broker in
      >>=-IfOk _ (inputs.gate_context (end_of day_label) s.kill.active) _ λ ctx _.
        >>=-IfOk _ (gross_exposure_pct marks broker) _ λ gross _.
          >>=-IfOk _ (propose_entries ranked _ ctx inputs.entry_settings _) _ λ decisions proposed.
            let within =
              propose_entries-IsWithin ctx inputs.entry_settings ranked _ _ decisions proposed in
            let none_held : (j : Ticker)
                → has j (held_qtys broker.positions) ≡ false
                → holding j broker ≡ none =
              λ j absent.
                sym (lookup-held_qtys j broker.positions)
                ∙ lookup_absent j (held_qtys broker.positions) absent in
            let (are_new, _) =
              IsFresh-AreNew decisions (held_qtys broker.positions) broker none_held within.fresh in
            (marked-IsInStep marks s.book s.broker h, rw none_yet are_new)

  close_day-IsReady :
      (marks : Dict F) (s : Backtest F)
      → IsReady s
      → IfOk IsReady (close_day inputs day_label marks s)
  unfolding close_day
  close_day-IsReady marks s (h, new) =
      let broker = mark_to_market marks s.broker in
      >>=-IfOk _
        (to_killswitch_inputs inputs.bdays (end_of day_label)
          (record_equity day_label broker.equity s.telemetry))
        _
        λ k _. (
          marked-IsInStep marks s.book s.broker h,
          AreNew-same s.pending_entries s.broker broker
              (λ j. rw (mark_to_market-positions marks s.broker) refl) new,
        )

  propose_if_any-IsReady :
      (ranked : List (Candidate F)) (marks : Dict F) (s : Backtest F)
      → IsInStep s.book s.broker
      → s.pending_entries ≡ []
      → IfOk IsReady (propose_if_any inputs day_label ranked marks s)
  propose_if_any-IsReady [] marks s h none_yet = (h, rw none_yet tt)
  propose_if_any-IsReady (c ∷ cs) marks s h none_yet =
      if_both (IfOk IsReady) s.kill.active (ok s) (propose inputs day_label (c ∷ cs) marks s)
        (h, rw none_yet tt) (propose-IsReady (c ∷ cs) marks s h none_yet)

  run_day-IsReady : (s : Backtest F) → IsReady s → IfOk IsReady (run_day inputs day_label s)
  unfolding run_day
  run_day-IsReady s (h, new) =
      let waiting = if s.kill.active then [] else s.pending_entries in
      let new' : AreNew waiting s.broker =
        if_both (λ ds. AreNew ds s.broker) s.kill.active [] s.pending_entries tt new in
      >>=-IfOk _ (fill_entries inputs day_label waiting s) _ λ filled done.
        >>=-IfOk _ (inputs.run_scan (end_of day_label)) _ λ ranked _.
          let opened = fill_entries-IsInStep inputs day_label waiting s h new' in
          let opened' : IsInStep filled.book filled.broker = rw done at opened in
          let scored : Backtest F = record filled {
            pending_entries = [];
            book = rescored (scores [] ranked) filled.book;
          } in
          let kept = rescored-IsInStep (scores [] ranked) filled.book filled.broker opened' in
          >>=-IfOk _ (manage_all inputs day_label (keys scored.book) ([], scored)) _ λ m managed.
            let all = manage_all-IsInStep (keys scored.book) [] scored kept in
            let (h', none_yet) = rw managed at all in
            >>=-IfOk _ (propose_if_any inputs day_label ranked m.0 m.1) _ λ proposed queued.
              let ready = propose_if_any-IsReady ranked m.0 m.1 h' none_yet in
              let ready' : IsReady proposed = rw queued at ready in
              close_day-IsReady m.0 proposed ready'

module _ {F : Type 0} ⦃f : Floats F⦄ (inputs : BacktestInputs F) where
  -- From a state where the book and the simulator hold the same shares of the same tickers, and the
  -- waiting entries are of different tickers that are not held, any run of days that raises nothing
  -- ends in such a state.
  pub run_days-IsReady :
      (days : List Time) (s : Backtest F) → IsReady s → IfOk IsReady (run_days inputs days s)
  unfolding run_days
  run_days-IsReady [] s h = h
  run_days-IsReady (d ∷ days) s h = >>=-IfOk _ (run_day inputs d s) _ λ s' done.
      let one = run_day-IsReady inputs d s h in
      let h' : IsReady s' = rw done at one in run_days-IsReady days s' h'
