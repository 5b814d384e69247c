-- ===== src/Broker.antt =====
-- broker/base.py: what every broker takes and returns. Tickers and order ids are only compared, so
-- they are numbers; an instant is a number of microseconds since the epoch, in UTC.
pub mod CostModel
pub mod Simulator
pub mod Ibkr
use squeeze_hunter.Prelude.{ℕ, Option}
use squeeze_hunter.Prelude.Int.{ℤ}

abbrev pub Ticker : Type 0
Ticker = ℕ

abbrev pub OrderId : Type 0
OrderId = ℕ

abbrev pub Time : Type 0
Time = ℕ

pub data Side : Type 0 where
  buy sell : Side

-- The texts that `status` is documented to hold, and any other.
pub data Status : Type 0 where
  pending routed partial filled cancelled rejected expired other : Status

module _ (F : Type 0) where
  pub record Quote : Type 0 where
    pub ticker : Ticker
    pub bid : F
    pub ask : F
    pub last : F
    pub timestamp_ns : ℕ

  pub record BrokerOrder : Type 0 where
    pub broker_order_id : OrderId
    pub ticker : Ticker
    pub side : Side
    pub qty : ℕ
    pub limit_price : Option F
    pub status : Status
    pub filled_qty : ℕ
    pub avg_fill_price : Option F
    pub commission_usd : F

  -- The quantity of a short position is negative.
  pub record PositionSnapshot : Type 0 where
    pub ticker : Ticker
    pub qty : ℤ
    pub avg_cost : F
