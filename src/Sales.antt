-- ===== src/Sales.antt =====
-- The sales module: apps/api/src/modules/sales.
pub mod Types
pub mod Repository
pub mod Orders
pub mod Leads
pub mod Pricing
pub mod Steps
pub mod Traces
pub mod Reviving
mod Examples
