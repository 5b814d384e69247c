-- ===== src/Tests/Runtime.antt =====
-- runtime.py in a session: one position, one planned entry, and a log of the tickers bought.
use mathlib.Core.Path.{subst}
use squeeze_hunter.Prelude.{
  ◌≡◌, ◌==◌, ◌*◌, ◌+◌, refl, true, false, ℕ, Option, none, some, List, [], ◌∷◌, Outcome, ok, raised,
  contract, IfOk, Bool-cases, inl, inr, if◌then◌else◌,
}
use squeeze_hunter.Prelude.Int.{pos}
use squeeze_hunter.Prelude.Dict.{has, lookup}
use squeeze_hunter.Prelude.Floats.{nought}
use squeeze_hunter.Prelude.Fixed.{Fixed, fixed_floats}
use squeeze_hunter.Setup.{Setup}
use squeeze_hunter.Broker.{Ticker, Side, Status, BrokerOrder, Time}
use squeeze_hunter.Risk.Killswitch.{KillReason, day}
use squeeze_hunter.Risk.Killswitch.Controller.{listed, prior_state}
use squeeze_hunter.Execution.Book.{Position}
use squeeze_hunter.Execution.Lifecycle.{BrokerCalls}
use squeeze_hunter.Execution.Lifecycle.Quiet.{IsQuiet}
use squeeze_hunter.Execution.Entries.{minutes}
use squeeze_hunter.Execution.Buys.{IsBuyLog}
use squeeze_hunter.Runtime.{Registry, RuntimeContext, RuntimeSnapshot}
use squeeze_hunter.Runtime.Services.{Services, RuntimeCfg, Alert}
use squeeze_hunter.Runtime.Persist.{snapshot, restore_from}
use squeeze_hunter.Runtime.Daily.{nightly_scan, premarket_verify}
use squeeze_hunter.Runtime.Tick.{tick}
use squeeze_hunter.Runtime.Restored.{restore_from-snapshot}
use squeeze_hunter.Runtime.Scan.{IsLatest, nightly_scan-rescored}
use squeeze_hunter.Runtime.Premarket.{Plans, premarket_verify-Plans}
use squeeze_hunter.Runtime.Suppressed.{tick-NoBuys}
use squeeze_hunter.Runtime.Suppressed.Observed.{IsBuyRecord}
use squeeze_hunter.Runtime.Marks.{tick-AreMarksHeld}
use squeeze_hunter.Runtime.Marks.Observed.{AreMarksHeld}
use squeeze_hunter.Tests.Decisions.{position, settings}
use squeeze_hunter.Tests.Entries.{placed, entry_cfg}
use squeeze_hunter.Tests.Killswitch.{kill_cfg, lit_controller, lit_gauges}
use squeeze_hunter.Tests.Orders.{plain}
use squeeze_hunter.Tests.Sizing.{context, entry_settings, ranked}
use squeeze_hunter.Tests.Telemetry.{telemetry}

abbrev Bought : Type 0
Bought = List Ticker

abbrev bought : Ticker → ℕ → Option Fixed → BrokerOrder Fixed
bought ticker qty limit = record {
  broker_order_id = 41;
  ticker = ticker;
  side = Side.buy;
  qty = qty;
  limit_price = limit;
  status = Status.filled;
  filled_qty = qty;
  avg_fill_price = limit;
  commission_usd = nought;
}

abbrev no_list : Option (Bought → Outcome (List (BrokerOrder Fixed)) × Bought)
no_list = none

-- The broker's state is the log itself.
abbrev trader : BrokerCalls Fixed Bought
trader = record {
  fetch_quote = λ t w. (
    ok (record {
      ticker = t;
      bid = fixed_floats.dec 8 0;
      ask = fixed_floats.dec 8 0;
      last = fixed_floats.dec 8 0;
      timestamp_ns = 0;
    }),
    w,
  );
  get_position_qty = λ t w. (ok (pos 9), w);
  cancel_order = λ id w. (ok true, w);
  get_open_orders = no_list;
  submit_sell = λ t q limit ts w. (raised contract, w);
  submit_buy = λ t q limit ts w. (ok (bought t q limit), t ∷ w);
  get_order = λ id w. (ok none, w);
  get_positions = λ w. (ok [], w);
  get_equity_usd = λ w. (ok (some (fixed_floats.dec 900 0)), w);
}

abbrev send : Alert Fixed → Bought → Outcome (Unit {0}) × Bought
send alert w = (ok tt, w)

abbrev save : RuntimeSnapshot Fixed Time → Bought → Outcome (Unit {0}) × Bought
save snap w = (ok tt, w)

abbrev services : Services Fixed Time Bought
services = record {
  broker = trader;
  health = λ w. (ok true, w);
  simulated = false;
  mark_to_market = λ marks now w. w;
  send = some send;
  save = some save;
  load = λ w. (ok none, w);
  run_scan = λ now w. (ok ranked, w);
  fetch_bars = λ t from to. ok [];
  gate_context = λ now. ok context;
  append_decisions = λ now ds w. (ok tt, w);
  read_freshness = λ w. ((2, record { as_of = some (4 * day); recorded_at = none }) ∷ [], w);
  zone = record { wall = λ t. t; utc_of = λ t. t };
  holidays = [];
  bdays = λ t. t;
  datetimes = plain;
  dates = plain;
}

abbrev runtime_cfg : RuntimeCfg Fixed
runtime_cfg = record {
  stops = settings;
  killswitch = kill_cfg;
  cooldown_days = 5;
  execution = entry_cfg;
  auto_enter = true;
  entry = entry_settings;
  budgets = (2, fixed_floats.dec 2 0) ∷ [];
  critical_datasets = 2 ∷ [];
  require_fresh_for_entries = true;
}

-- The fifth day since the epoch is a Tuesday.
abbrev noon : Time
noon = 5 * day + minutes 720

abbrev registry : Registry Fixed
registry = record { kill = lit_gauges; equity = none; position_count = 1; broker_connected = true }

abbrev suppressed : RuntimeContext Fixed
suppressed = record {
  has_broker = true;
  metrics = some registry;
  lifecycle = record {
    positions = (1, position) ∷ [];
    exits = [];
    in_flight = [];
    exits_max_entries = 500;
    params = settings;
  };
  killswitch = lit_controller;
  telemetry = telemetry;
  last_candidates = some ranked;
  tick_in_progress = false;
  last_broker_healthy = true;
  planned =
      record {
        ticker = 3;
        score = fixed_floats.dec 6 0;
        setup_type = Setup.car;
        size_usd = fixed_floats.dec 2000 0;
        accepted = true;
        reason = none;
      }
      ∷ [];
  pending = (7, placed 7) ∷ [];
}

trader-IsQuiet : IsQuiet trader (λ w. w)
trader-IsQuiet = record {
  quote_quiet = λ t w. refl;
  qty_quiet = λ t w. refl;
  cancel_quiet = λ id w. refl;
  open_quiet = λ get_open w e. absurd (let missing : no_list ≡ some get_open = e in cc);
}

trader-IsBuyLog : IsBuyLog trader (λ w. w)
trader-IsBuyLog = record {
  quiet = trader-IsQuiet;
  sell_quiet = λ t q limit ts w. refl;
  order_quiet = λ id w. refl;
  positions_quiet = λ w. refl;
  equity_quiet = λ w. refl;
}

services-IsBuyRecord : IsBuyRecord services (λ w. w)
services-IsBuyRecord = record {
  orders = trader-IsBuyLog;
  health_quiet = λ w. refl;
  marks_quiet = λ marks now w. refl;
  send_quiet =
      λ other alert w e. let same : send ≡ other = cc in subst (λ g. (g alert w).1 ≡ w) same refl;
  save_quiet =
      λ other snap w e. let same : save ≡ other = cc in subst (λ g. (g snap w).1 ≡ w) same refl;
}

tick-NoBuys_example : (tick services runtime_cfg noon suppressed []).2 ≡ []
tick-NoBuys_example =
    tick-NoBuys services runtime_cfg (λ w. w) services-IsBuyRecord noon suppressed [] refl

suppressed-AreMarksHeld : AreMarksHeld suppressed
suppressed-AreMarksHeld = (
  (refl, tt),
  λ j. elim (Bool-cases (j == 1)) [ inl held ↦ inl (rw held refl) | inr other ↦ inr (rw other tt) ],
)

tick-AreMarksHeld_example :
    let (r, s', w') = tick services runtime_cfg noon suppressed [] in
    IfOk (λ done. AreMarksHeld s') r
tick-AreMarksHeld_example =
    tick-AreMarksHeld services runtime_cfg noon suppressed [] suppressed-AreMarksHeld

premarket_verify-Plans_example :
    Plans services runtime_cfg noon suppressed []
      (premarket_verify services runtime_cfg noon suppressed []).1
premarket_verify-Plans_example =
    premarket_verify-Plans services runtime_cfg noon (λ v. refl) suppressed []

nightly_scan-rescored_example :
    let s' = (nightly_scan services runtime_cfg noon suppressed []).1 in
    (s'.last_candidates ≡ some (if suppressed.killswitch.active then [] else ranked))
    × ((t : Ticker) → has t s'.lifecycle.positions ≡ has t suppressed.lifecycle.positions)
    × ((t : Ticker) (meta : Position Fixed)
        → lookup t suppressed.lifecycle.positions ≡ some meta
        → (score : Fixed) × (lookup t s'.lifecycle.positions
            ≡ some (record meta { current_score = score }))
          × IsLatest t ranked meta.current_score score)
nightly_scan-rescored_example =
    nightly_scan-rescored services runtime_cfg noon suppressed [] ranked refl

abbrev fresh : RuntimeContext Fixed
fresh = record suppressed {
  lifecycle = record suppressed.lifecycle { positions = [] };
  planned = [];
  pending = [];
}

restore_from-snapshot_example :
    let (r, s', w') = restore_from services (snapshot services suppressed) fresh [] in
    (r ≡ ok tt)
    × (w' ≡ [])
    × (s'.lifecycle.positions ≡ suppressed.lifecycle.positions)
    × (s'.planned ≡ suppressed.planned)
    × (s'.pending ≡ suppressed.pending)
    × (s'.telemetry.equity_history ≡ suppressed.telemetry.equity_history)
    × (s'.telemetry.equity_peak_per_day ≡ suppressed.telemetry.equity_peak_per_day)
    × (prior_state s'.killswitch ≡ prior_state suppressed.killswitch)
    × ((l : KillReason)
        → listed l s'.killswitch.active_reasons ≡ listed l suppressed.killswitch.active_reasons)
restore_from-snapshot_example =
    restore_from-snapshot services suppressed fresh [] (refl, tt) (refl, refl, tt) tt
