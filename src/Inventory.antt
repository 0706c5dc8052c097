-- ===== src/Inventory.antt =====
-- The inventory module: apps/api/src/modules/inventory.
pub mod Types
pub mod Repository
pub mod Catalogue
pub mod Stocks
pub mod Invariant
pub mod Reserving
pub mod Cancelling
pub mod Counting
pub mod Traces
pub mod Ledger
pub mod Refining
pub mod Repeating
pub mod Availability
mod Examples
