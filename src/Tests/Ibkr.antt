-- ===== src/Tests/Ibkr.antt =====
-- broker/ibkr.py with a client that logs the keys of the orders, and holds three rows of positions.
use squeeze_hunter.Prelude.{
  ◌≡◌, ◌≤◌, refl, Option, none, some, List, [], ◌∷◌, ok, raised, contract, true, arith, ℕ,
}
use squeeze_hunter.Prelude.Int.{pos}
use squeeze_hunter.Prelude.Floats.{nought}
use squeeze_hunter.Prelude.Fixed.{Fixed, fixed_floats}
use squeeze_hunter.Broker.{Side, Ticker}
use squeeze_hunter.Broker.Ibkr.{
  TwsStatus, translate_status, make_stock, submitted_as, find_open_by_ref, ClientRef, Trade,
  NewOrder, PositionRow, IbkrBroker, Client, client_ref,
}
use squeeze_hunter.Broker.Ibkr.Session.{place, place_new, get_positions, get_position_qty}
use squeeze_hunter.Broker.Ibkr.Holdings.{Agree, get_positions-get_position_qty}
use squeeze_hunter.Broker.Ibkr.Once.{IsOrderLog, Request, place_all, count_ref, place_all-once}

abbrev Sent : Type 0
Sent = List ClientRef

abbrev trade_of : NewOrder Fixed → Trade Fixed
trade_of o = record {
  order_id = 5;
  order_ref = some o.order_ref;
  symbol = o.order_ref.ticker;
  action = o.action;
  total_quantity = o.qty;
  lmt_price = o.limit_price;
  status = TwsStatus.submitted;
  filled = 0;
  avg_fill_price = nought;
}

abbrev row : Option ℕ → Ticker → ℕ → PositionRow Fixed
row account ticker qty = record {
  symbol = some ticker;
  account = account;
  position = pos qty;
  avg_cost = fixed_floats.dec 10 0;
}

-- No trade stays open, so only the keys of the session tell an order that is asked for again.
abbrev client : Client Fixed Sent
client = record {
  connect = λ w. (ok tt, w);
  req_account_updates = λ account w. (ok tt, w);
  managed_accounts = λ w. 1 ∷ [];
  disconnect = λ w. w;
  is_connected = λ w. true;
  qualify_contracts = λ stock w. (ok tt, w);
  req_mkt_data = λ stock w. (ok tt, w);
  market_data =
      λ stock w. record { bid = nought; ask = nought; last = nought; close = nought; time = none };
  open_trades = λ w. [];
  trades = λ w. [];
  place_order = λ stock order w. (ok (trade_of order), order.order_ref ∷ w);
  cancel_order = λ trade w. (raised contract, w);
  req_positions = λ w. (ok tt, w);
  positions = λ w. row (some 1) 7 4 ∷ row (some 2) 7 9 ∷ row none 7 3 ∷ [];
  account_values = λ w. ok [];
  sleep = λ w. w;
  clock = λ w. 0;
  time_ns = λ w. 0;
}

abbrev session : IbkrBroker Fixed
session = record {
  account = some 1;
  primary_exchange_overrides = [];
  primary_exchange_defaults = [];
  submitted_refs = [];
}

client-IsOrderLog : IsOrderLog client (λ w. w)
client-IsOrderLog = record {
  qualify_quiet = λ stock w. refl;
  taken = λ stock order trade w e. refl;
  not_taken = λ stock order w e. absurd (ground arith);
}

abbrev buy_ten : Request Fixed
buy_ten = record { ticker = 7; side = Side.buy; qty = 10; limit_price = none; ts = 5_000_000 }

-- The same order again, half a second later.
abbrev again : Request Fixed
again = record buy_ten { ts = 5_500_000 }

sent_once :
    (place_all client (λ w. w) (buy_ten ∷ again ∷ []) session []).1
    ≡ client_ref 7 Side.buy 10 5_000_000 ∷ []
unfolding place place_new client_ref make_stock submitted_as find_open_by_ref translate_status
sent_once = refl

place_all-once_example :
    count_ref
      (client_ref 7 Side.buy 10 5_000_000)
      (place_all client (λ w. w) (buy_ten ∷ again ∷ []) session []).1
    ≤ 1
place_all-once_example =
    place_all-once client (λ w. w) client-IsOrderLog (λ w. w) (buy_ten ∷ again ∷ []) session []
      (λ v. refl) refl (client_ref 7 Side.buy 10 5_000_000)

-- The rows of account 1 and of no account count: seven shares.
get_positions-get_position_qty_example :
    let (ps, w') = get_positions client session [] in
    let (q, w'') = get_position_qty client 7 session [] in Agree 7 ps q × (w' ≡ w'')
get_positions-get_position_qty_example = get_positions-get_position_qty client 7 session []
