-- ===== src/Workflow.antt =====
-- The workflows of apps/api/src/modules/workflow that are modelled.
pub mod PurchaseApproval
pub mod Approving
pub mod Repeating
pub mod Replenishment
pub mod Replenishing
pub mod FinancialPosting
pub mod Postable
pub mod Posting
pub mod Compensating
mod Examples
mod PostingExamples
mod ReplenishingExamples
