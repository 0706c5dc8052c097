-- ===== src/Finance.antt =====
-- The finance module: apps/api/src/modules/finance.
pub mod Types
pub mod Repository
pub mod Budgets
pub mod Expenses
pub mod Invariant
pub mod Allocating
pub mod Funding
pub mod Deciding
pub mod Keeping
pub mod Traces
pub mod Decisions
mod Examples
