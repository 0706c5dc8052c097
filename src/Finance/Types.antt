-- ===== src/Finance/Types.antt =====
-- apps/api/src/modules/finance/domain/finance.types.ts, the DTO classes of
-- apps/api/src/modules/finance/dto and ExpenseStatus of packages/contracts/src/index.ts. An absent
-- optional text is the empty text; amounts are whole multiples of the smallest unit of money.
use autonomous_enterprise.Shared.{String, Option, List}
use autonomous_enterprise.Shared.Int.{ℤ}

pub data ExpenseStatus : Type 0 where
  pending approved rejected paid : ExpenseStatus

pub record CostCenter : Type 0 where
  pub id : String
  pub name : String
  pub code : String
  pub created_at : String
  pub updated_at : String

pub record BudgetAllocation : Type 0 where
  pub id : String
  pub budget_id : String
  pub amount : ℤ
  pub purpose : String
  pub created_at : String
  pub updated_at : String

pub record Budget : Type 0 where
  pub id : String
  pub cost_center_id : String
  pub name : String
  pub total_amount : ℤ
  pub allocated_amount : ℤ
  pub spent_amount : ℤ
  pub period : String
  pub allocations : List BudgetAllocation
  pub created_at : String
  pub updated_at : String

pub record Expense : Type 0 where
  pub id : String
  pub budget_id : String
  pub cost_center_id : String
  pub amount : ℤ
  pub description : String
  pub status : ExpenseStatus
  pub requested_by : String
  pub approved_by : String
  pub created_at : String
  pub updated_at : String

pub record CreateCostCenterDto : Type 0 where
  pub name : String
  pub code : String

pub record CreateBudgetDto : Type 0 where
  pub name : String
  pub total_amount : Option ℤ
  pub period : String
  pub cost_center_id : String

pub record CreateBudgetAllocationDto : Type 0 where
  pub budget_id : String
  pub amount : Option ℤ
  pub purpose : String

pub record CreateExpenseDto : Type 0 where
  pub amount : Option ℤ
  pub description : String
  pub requested_by : String
  pub budget_id : String
  pub cost_center_id : String

pub record ApproveExpenseDto : Type 0 where
  pub approved_by : String
