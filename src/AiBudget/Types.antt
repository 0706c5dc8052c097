-- ===== src/AiBudget/Types.antt =====
-- apps/api/src/modules/ai-budget/domain/ai-budget.types.ts and the interfaces of
-- apps/api/src/modules/ai-budget/ai-budget.service.ts. A cost counts the smallest units of money; an
-- absent text is the empty text, an absent number `none`.
use autonomous_enterprise.Shared.{String, Bool, Option, List}
use autonomous_enterprise.Shared.Int.{ℤ}

pub record AiUsageRecord : Type 0 where
  pub id : String
  pub tenant_id : String
  pub workflow_id : String
  pub agent_name : String
  pub model : String
  pub input_tokens : ℤ
  pub output_tokens : ℤ
  pub total_tokens : ℤ
  pub estimated_cost_usd : ℤ
  pub actual_cost_usd : Option ℤ
  pub latency_ms : ℤ
  pub reevaluation_count : ℤ
  pub created_at : String

pub record TenantAiBudget : Type 0 where
  pub id : String
  pub tenant_id : String
  pub daily_budget_usd : ℤ
  pub monthly_budget_usd : ℤ
  pub per_transaction_budget_usd : ℤ
  pub per_agent_daily_budget_usd : ℤ
  pub created_at : String
  pub updated_at : String

pub record AiBudgetStatus : Type 0 where
  pub tenant_id : String
  pub daily_used_usd : ℤ
  pub daily_remaining_usd : ℤ
  pub monthly_used_usd : ℤ
  pub monthly_remaining_usd : ℤ
  pub is_daily_exceeded : Bool
  pub is_monthly_exceeded : Bool

pub record RecordUsageInput : Type 0 where
  pub workflow_id : String
  pub agent_name : String
  pub model : String
  pub input_tokens : ℤ
  pub output_tokens : ℤ
  pub estimated_cost_usd : ℤ
  pub actual_cost_usd : Option ℤ
  pub latency_ms : ℤ
  pub reevaluation_count : Option ℤ

-- The new amounts of `setBudget`, as far as they are given.
pub record BudgetOverrides : Type 0 where
  pub daily_budget_usd : Option ℤ
  pub monthly_budget_usd : Option ℤ
  pub per_transaction_budget_usd : Option ℤ
  pub per_agent_daily_budget_usd : Option ℤ

pub record BudgetCheckResult : Type 0 where
  pub allowed : Bool
  pub status : AiBudgetStatus
  pub reasons : List String

pub record ReserveResult : Type 0 where
  pub allowed : Bool
  pub reasons : List String
  pub created : Option AiUsageRecord

-- The two arrays of the repository.
pub record AiBudgetRepository : Type 0 where
  pub usage_records : List AiUsageRecord
  pub budgets : List TenantAiBudget

-- The clock at a call, with the start of its day and month, in milliseconds, and the identifier that
-- `Date.now()` and `Math.random()` make up.
pub record Moment : Type 0 where
  pub now : String
  pub id : String
  pub start_of_day : ℤ
  pub start_of_month : ℤ
