-- ===== src/Tests.antt =====
-- The theorems at concrete inputs. The numbers are ten-thousandths.
mod Orders
mod Stops
mod Killswitch
mod Sizing
mod Decisions
mod Lifecycle
mod Brokers
mod Telemetry
mod Reconcile
mod Replay
mod Entries
mod Oms
mod Backtest
mod Gate
mod Runtime
mod Ibkr
