-- ===== src/Finance/Traces.antt =====
-- The budgets and the expenses under any sequence of calls of the finance service.
use autonomous_enterprise.Shared.{arith, ◌≡◌, refl, lookup, String, [], none, after}
use autonomous_enterprise.Finance.Types.{
  CreateCostCenterDto, CreateBudgetDto, CreateBudgetAllocationDto, CreateExpenseDto,
  ApproveExpenseDto,
}
use autonomous_enterprise.Finance.Repository.{FinanceRepository}
use autonomous_enterprise.Finance.Budgets.{
  create_cost_center, create_budget, create_budget_allocation,
}
use autonomous_enterprise.Finance.Expenses.{create_expense, approve_expense, reject_expense}
use autonomous_enterprise.Finance.Invariant.{IsBudgeted}
use autonomous_enterprise.Finance.Allocating.{create_budget-IsBudgeted, allocate_budget-IsBudgeted}
use autonomous_enterprise.Finance.Keeping.{
  create_expense-IsBudgeted, approve_expense-IsBudgeted, reject_expense-IsBudgeted,
}

-- The repository as it is constructed.
unfoldable pub empty_finance : FinanceRepository
empty_finance = record { cost_centers = []; budgets = []; allocations = []; expenses = [] }

-- One call of the service that may write. The identifiers of new budgets, allocations and expenses
-- are not in use.
pub data Step (r : FinanceRepository) : FinanceRepository → Type 0 where
  creates_cost_center :
      (now id : String) (dto : CreateCostCenterDto)
      → Step r (after (create_cost_center now id dto r))
  creates_budget :
      (now id : String) (dto : CreateBudgetDto)
      → lookup id r.budgets ≡ none
      → Step r (after (create_budget now id dto r))
  allocates :
      (now id : String) (dto : CreateBudgetAllocationDto)
      → lookup id r.allocations ≡ none
      → Step r (after (create_budget_allocation now id dto r))
  creates_expense :
      (now id : String) (dto : CreateExpenseDto)
      → lookup id r.expenses ≡ none
      → Step r (after (create_expense now id dto r))
  approves :
      (now id : String) (dto : ApproveExpenseDto) → Step r (after (approve_expense now id dto r))
  rejects : (now id : String) → Step r (after (reject_expense now id r))

pub data Reach : FinanceRepository → Type 0 where
  start : Reach empty_finance
  next : {r t : FinanceRepository} → Reach r → Step r t → Reach t

create_cost_center_same :
    (now id : String) (dto : CreateCostCenterDto) (r : FinanceRepository)
    → let t = after (create_cost_center now id dto r) in
      (t.budgets ≡ r.budgets) × (t.allocations ≡ r.allocations) × (t.expenses ≡ r.expenses)
unfolding create_cost_center
create_cost_center_same now id dto r = ground arith

create_cost_center-IsBudgeted :
    (now id : String) (dto : CreateCostCenterDto) (r : FinanceRepository)
    → IsBudgeted r
    → IsBudgeted (after (create_cost_center now id dto r))
create_cost_center-IsBudgeted now id dto r h =
    let (b, a, e) = create_cost_center_same now id dto r in
    record { budgets = λ k. rw (b, a, e) (h.budgets k); sound = rw e h.sound }

Step-IsBudgeted : {r t : FinanceRepository} → Step r t → IsBudgeted r → IsBudgeted t
unfolding create_budget_allocation
Step-IsBudgeted {r} (creates_cost_center now id dto) h =
    create_cost_center-IsBudgeted now id dto r h
Step-IsBudgeted {r} (creates_budget now id dto fresh) h =
    create_budget-IsBudgeted now id dto r h fresh
Step-IsBudgeted {r} (allocates now id dto fresh) h = allocate_budget-IsBudgeted now id dto r h fresh
Step-IsBudgeted {r} (creates_expense now id dto fresh) h =
    create_expense-IsBudgeted now id dto r h fresh
Step-IsBudgeted {r} (approves now id dto) h = approve_expense-IsBudgeted now id dto r h
Step-IsBudgeted {r} (rejects now id) h = reject_expense-IsBudgeted now id r h

-- In every state that is reached from the empty one by calls of the service, in any order, each
-- budget's allocated amount is the sum of its allocations, its spent amount the sum of its
-- approved expenses, and each of the two sums is at most its total amount.
pub Reach-IsBudgeted : {r : FinanceRepository} → Reach r → IsBudgeted r
unfolding empty_finance lookup
Reach-IsBudgeted start = record { budgets = λ k. (refl, refl); sound = tt }
Reach-IsBudgeted (next reach step) = Step-IsBudgeted step (Reach-IsBudgeted reach)
