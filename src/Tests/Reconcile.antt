-- ===== src/Tests/Reconcile.antt =====
-- execution/reconcile.py against a broker that holds one known ticker, one unknown and one free.
use squeeze_hunter.Prelude.{
  ◌≡◌, ◌⊎◌, refl, true, none, List, [], ◌∷◌, ok, raised, transient, contract,
}
use squeeze_hunter.Prelude.Int.{pos}
use squeeze_hunter.Prelude.Floats.{nought}
use squeeze_hunter.Prelude.Fixed.{Fixed, fixed_floats}
use squeeze_hunter.Broker.{Ticker, PositionSnapshot}
use squeeze_hunter.Execution.Lifecycle.{BrokerCalls}
use squeeze_hunter.Execution.Reconcile.{reconcile_book}
use squeeze_hunter.Execution.Reconcile.Adoption.{book_qty, is_ignored}
use squeeze_hunter.Execution.Reconcile.Listed.{listed_shares}
use squeeze_hunter.Execution.Reconcile.Agreement.{reconcile_book-agreed}
use squeeze_hunter.Tests.Decisions.{position}
use squeeze_hunter.Tests.Telemetry.{telemetry}

abbrev snapshots : List (PositionSnapshot Fixed)
snapshots =
    record { ticker = 1; qty = pos 4; avg_cost = fixed_floats.dec 8 0 }
    ∷ record { ticker = 2; qty = pos 6; avg_cost = fixed_floats.dec 5 0 }
    ∷ record { ticker = 3; qty = pos 7; avg_cost = nought }
    ∷ []

-- No quote comes.
abbrev holder : BrokerCalls Fixed (Unit {0})
holder = record {
  fetch_quote = λ t w. (raised transient, w);
  get_position_qty = λ t w. (ok (pos 0), w);
  cancel_order = λ id w. (ok true, w);
  get_open_orders = none;
  submit_sell = λ t q limit ts w. (raised contract, w);
  submit_buy = λ t q limit ts w. (raised contract, w);
  get_order = λ id w. (ok none, w);
  get_positions = λ w. (ok snapshots, w);
  get_equity_usd = λ w. (ok none, w);
}

reconcile_book-agreed_example :
    let (returned, r, w') =
      reconcile_book holder true [] ((1, position) ∷ (5, position) ∷ []) telemetry tt in
    (returned ≡ ok tt)
    × ((j : Ticker)
        → (book_qty j r.book ≡ listed_shares j snapshots)
          ⊎ ((book_qty j r.book ≡ none) × (is_ignored j r.drift ≡ true)))
reconcile_book-agreed_example =
    reconcile_book-agreed holder (λ t w. refl) ((1, position) ∷ (5, position) ∷ []) telemetry tt
      snapshots (refl, (refl, tt)) (refl, (refl, (refl, tt))) refl
