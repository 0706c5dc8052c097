-- ===== src/WorkflowTask.antt =====
-- The workflow tasks: apps/api/src/modules/workflow-task.
pub mod Types
pub mod Tasks
pub mod Attempts
pub mod Bounds
mod Examples
