-- ===== src/Procurement.antt =====
-- The procurement module: apps/api/src/modules/procurement.
pub mod Types
pub mod Repository
pub mod Requests
pub mod Orders
pub mod Ordering
pub mod Converting
pub mod Receiving
pub mod Reapproving
mod Examples
