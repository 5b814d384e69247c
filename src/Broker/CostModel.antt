-- ===== src/Broker/CostModel.antt =====
-- backtest/cost_model.py: what a fill costs, for stocks and for options.
use squeeze_hunter.Prelude.{ℕ, Bool, if◌then◌else◌}
use squeeze_hunter.Prelude.Floats.{Floats, nought, of_nat}

module _ (F : Type 0) where
  pub record Fill : Type 0 where
    pub fill_price : F
    pub commission_usd : F

  pub record StockCostModel : Type 0 where
    pub commission_per_share : F
    pub slippage_high_price_bps : F
    pub slippage_low_price_bps : F
    pub low_price_threshold : F
    pub open_window_extra_bps : F

  pub record OptionCostModel : Type 0 where
    pub commission_per_contract : F

module _ {F : Type 0} ⦃f : Floats F⦄ where
  unfoldable pub slippage_bps : StockCostModel F → F → Bool → F
  slippage_bps m price is_open_5min =
      let base =
        if f.le m.low_price_threshold price
        then m.slippage_high_price_bps
        else m.slippage_low_price_bps in
      f.add base (if is_open_5min then m.open_window_extra_bps else nought)

  unfoldable pub simulate_buy : StockCostModel F → F → ℕ → Bool → Fill F
  simulate_buy m reference_price qty is_open_5min =
      let bps = slippage_bps m reference_price is_open_5min in
      record {
        fill_price = f.mul reference_price (f.add (of_nat 1) (f.quotient bps (of_nat 10000)));
        commission_usd = f.mul (of_nat qty) m.commission_per_share;
      }

  pub simulate_sell : StockCostModel F → F → ℕ → Bool → Fill F
  simulate_sell m reference_price qty is_open_5min =
      let bps = slippage_bps m reference_price is_open_5min in
      record {
        fill_price = f.mul reference_price (f.sub (of_nat 1) (f.quotient bps (of_nat 10000)));
        commission_usd = f.mul (of_nat qty) m.commission_per_share;
      }

  pub simulate_option_buy : OptionCostModel F → F → F → ℕ → Fill F
  simulate_option_buy m mid spread qty = record {
    fill_price = f.add mid (f.mul (f.dec 25 2) spread);
    commission_usd = f.mul (of_nat qty) m.commission_per_contract;
  }

  pub simulate_option_sell : OptionCostModel F → F → F → ℕ → Fill F
  simulate_option_sell m mid spread qty = record {
    fill_price = f.sub mid (f.mul (f.dec 25 2) spread);
    commission_usd = f.mul (of_nat qty) m.commission_per_contract;
  }
