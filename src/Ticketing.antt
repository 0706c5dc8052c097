-- ===== src/Ticketing.antt =====
-- The ticketing module: apps/api/src/modules/ticketing.
pub mod Types
pub mod Repository
pub mod Tickets
pub mod Slas
pub mod Steps
pub mod Writes
pub mod Lifecycle
mod Examples
