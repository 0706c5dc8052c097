-- ===== src/AiBudget.antt =====
-- The AI budget module: apps/api/src/modules/ai-budget.
pub mod Types
pub mod Budgets
pub mod Reservations
pub mod Breakdown
pub mod Limits
pub mod Conserving
mod Examples
