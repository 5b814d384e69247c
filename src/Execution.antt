-- ===== src/Execution.antt =====
-- The execution package: orders, decisions, slicing and the position lifecycle.
pub mod Orders
pub mod Book
pub mod Decisions
pub mod Proposals
pub mod Pricing
pub mod Slicing
pub mod Context
pub mod Entries
pub mod Buys
pub mod Oms
pub mod Lifecycle
pub mod Reconcile
