-- ===== src/Accounting.antt =====
-- The accounting module: apps/api/src/modules/accounting.
pub mod Types
pub mod Repository
pub mod Journals
pub mod Invoices
pub mod Settlement
pub mod Paying
pub mod Balance
pub mod Booking
pub mod Reversing
pub mod Traces
pub mod Closing
mod Examples
