-- ===== src/Execution/Lifecycle.antt =====
-- execution/lifecycle.py: the state of the daemon and its calls of the broker.
pub mod Cancel
pub mod Process
pub mod Handover
pub mod Quiet
pub mod Sales
pub mod Safety
use squeeze_hunter.Prelude.{
  ℕ, ◌-◌, Bool, true, false, Option, List, [], ◌∷◌, ◌++◌, Outcome, Exception, transient,
  if◌then◌else◌, ltb, length, drop,
}
use squeeze_hunter.Prelude.Int.{ℤ}
use squeeze_hunter.Prelude.Dict.{insert, erase}
use squeeze_hunter.Broker.{Ticker, OrderId, Time, Quote, BrokerOrder, PositionSnapshot}
use squeeze_hunter.Risk.Stops.{StopReason, StopParams}
use squeeze_hunter.Execution.Book.{Book, Position}

-- The methods of `IBroker` that the program awaits. `W` is all that they may change; each returns or
-- raises. `get_open_orders` may be missing.
pub record BrokerCalls (F W : Type 0) : Type 0 where
  pub fetch_quote : Ticker → W → Outcome (Quote F) × W
  pub get_position_qty : Ticker → W → Outcome ℤ × W
  pub cancel_order : OrderId → W → Outcome Bool × W
  pub get_open_orders : Option (W → Outcome (List (BrokerOrder F)) × W)
  pub submit_sell : Ticker → ℕ → Option F → Time → W → Outcome (BrokerOrder F) × W
  pub submit_buy : Ticker → ℕ → Option F → Time → W → Outcome (BrokerOrder F) × W
  pub get_order : OrderId → W → Outcome (Option (BrokerOrder F)) × W
  pub get_positions : W → Outcome (List (PositionSnapshot F)) × W
  pub get_equity_usd : W → Outcome (Option F) × W

pub data ExitReason : Type 0 where
  stopped : StopReason → ExitReason
  unnamed reconciled_filled_exit reconciled_filled_halve : ExitReason

pub record ExitEntry : Type 0 where
  pub ts : Time
  pub ticker : Ticker
  pub qty : ℕ
  pub reason : ExitReason

-- The lock is left out: calls run one after the other.
pub record LifecycleState (F : Type 0) : Type 0 where
  pub positions : Book F
  pub exits : List ExitEntry
  pub in_flight : List Ticker
  pub exits_max_entries : ℕ
  pub params : StopParams F

-- `except _TRANSIENT_FETCH_ERRORS`
abbrev pub is_transient : Exception → Bool
is_transient transient = true
is_transient _ = false

module _ {F : Type 0} where
  unfoldable pub record_exit : ExitEntry → LifecycleState F → LifecycleState F
  record_exit entry s =
      let exits = s.exits ++ entry ∷ [] in
      if ltb s.exits_max_entries (length exits)
      then record s { exits = drop (length exits - s.exits_max_entries) exits }
      else record s { exits = exits }

  -- Positions are changed in place: the book holds the new one.
  abbrev pub put : Ticker → Position F → LifecycleState F → LifecycleState F
  put t meta s = record s { positions = insert t meta s.positions }

  abbrev pub pop : Ticker → LifecycleState F → LifecycleState F
  pop t s = record s { positions = erase t s.positions }
