-- ===== src/Tests/Brokers.antt =====
-- broker/simulator.py, execution/slicing.py and score/classifier.py at concrete inputs.
use squeeze_hunter.Prelude.{
  ◌<◌, ◌≡◌, ◌⊎◌, ◌↔◌, refl, true, false, none, some, List, [], ◌∷◌, All, length, arith,
}
use squeeze_hunter.Prelude.Int.{pos, add}
use squeeze_hunter.Prelude.Dict.{IsDict}
use squeeze_hunter.Prelude.Floats.{◌≺◌}
use squeeze_hunter.Prelude.Fixed.{Fixed, fixed_floats, Fixed-IsOrdered}
use squeeze_hunter.Setup.{Setup}
use squeeze_hunter.Broker.{Side}
use squeeze_hunter.Broker.CostModel.{StockCostModel}
use squeeze_hunter.Broker.Simulator.{SimulatorBroker}
use squeeze_hunter.Broker.Simulator.Runs.{Request, fills, Balanced, fills-balance}
use squeeze_hunter.Execution.Slicing.{TwapParams, build_twap_plan}
use squeeze_hunter.Execution.Slicing.Schedule.{total, build_twap_plan-total}
use squeeze_hunter.Score.{Factors, classify_setup, car_strength, gme_strength}
use squeeze_hunter.Score.Labels.{classify_setup-weak_iff}

abbrev costs : StockCostModel Fixed
costs = record {
  commission_per_share = fixed_floats.dec 5 3;
  slippage_high_price_bps = fixed_floats.dec 5 0;
  slippage_low_price_bps = fixed_floats.dec 15 0;
  low_price_threshold = fixed_floats.dec 10 0;
  open_window_extra_bps = fixed_floats.dec 10 0;
}

abbrev pub holding_ten : SimulatorBroker Fixed
holding_ten = record {
  cost_model = costs;
  cash = fixed_floats.dec 1000 0;
  equity = fixed_floats.dec 1200 0;
  positions = (1, record { qty = 10; avg_price = fixed_floats.dec 20 0; opened_at = 5 }) ∷ [];
  realized = [];
  last_marks = [];
  order_history = [];
}

holding_ten-IsDict : IsDict holding_ten.positions
holding_ten-IsDict = (refl, tt)

abbrev requests : List (Request Fixed)
requests =
    record {
      id = 9;
      side = Side.sell;
      ticker = 1;
      qty = 4;
      limit_price = none;
      ts = 6;
      is_open_5min = false;
    }
    ∷ record {
      id = 10;
      side = Side.sell;
      ticker = 1;
      qty = 40;
      limit_price = none;
      ts = 7;
      is_open_5min = false;
    }
    ∷ record {
      id = 11;
      side = Side.buy;
      ticker = 2;
      qty = 3;
      limit_price = some (fixed_floats.dec 8 0);
      ts = 8;
      is_open_5min = true;
    }
    ∷ []

fills-balance_example :
    let (os, s') = fills requests holding_ten in Balanced holding_ten os s' × IsDict s'.positions
fills-balance_example = fills-balance requests holding_ten holding_ten-IsDict

abbrev twap : TwapParams Fixed
twap = record {
  ticker = 1;
  side = Side.buy;
  reference_price = fixed_floats.dec 20 0;
  market_open = 1000;
  window_minutes = 20;
  slice_offset_minutes = 5;
  starting_aggression_bps = fixed_floats.dec 5 0;
  ending_aggression_bps = fixed_floats.dec 30 0;
}

build_twap_plan-total_example :
    let slices = (build_twap_plan twap (pos 100) (pos 6)).slices in
    (total slices ≡ 100) × (length slices ≡ 6) × All (λ s. 0 < s.qty) slices
build_twap_plan-total_example = build_twap_plan-total twap (pos 100) (pos 6) (ground arith)

abbrev factors : Factors Fixed
factors = record {
  f1_si_pct = some (fixed_floats.dec 25 1);
  f3_earnings_reaction = some (fixed_floats.dec 2 0);
  f4_wsb_mention = none;
  f5_call_oi_velocity = some (fixed_floats.dec 25 1);
}

classify_setup-weak_iff_example :
    (classify_setup (fixed_floats.dec 4 0) (fixed_floats.dec 3 0) factors ≡ Setup.weak)
    ↔ (car_strength factors ≺ fixed_floats.dec 4 0)
      × (gme_strength factors ≺ fixed_floats.dec 4 0)
      × ((car_strength factors ≺ fixed_floats.dec 3 0)
          ⊎ (gme_strength factors ≺ fixed_floats.dec 3 0))
unfolding add
classify_setup-weak_iff_example =
    classify_setup-weak_iff Fixed-IsOrdered (fixed_floats.dec 4 0) (fixed_floats.dec 3 0) factors
      refl refl refl
