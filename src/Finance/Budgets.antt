-- ===== src/Finance/Budgets.antt =====
-- apps/api/src/modules/finance/finance.service.ts: the methods of the class FinanceService on cost
-- centers, budgets and allocations. `now` is the clock's text, `id` the text of `randomUUID()`.
use autonomous_enterprise.Shared.{
  Action, not_found, bad_request, pure, gets, or_throw, throw_if, ◌>>=◌, ◌>>◌, is_empty, is_present,
  String, Bool, false, not, ◌&&◌, ◌||◌, Option, none, some, List, [],
}
use autonomous_enterprise.Shared.Int.{ℤ, pos, ◌+ℤ◌, ◌-ℤ◌, ltb_ℤ, leb_ℤ}
use autonomous_enterprise.Finance.Types.{
  CostCenter, Budget, BudgetAllocation, CreateCostCenterDto, CreateBudgetDto,
  CreateBudgetAllocationDto,
}
use autonomous_enterprise.Finance.Repository
use autonomous_enterprise.Finance.Repository.{FinanceRepository}

abbrev Fin : Type 0 → Type 0
Fin A = Action FinanceRepository A

unfoldable pub create_cost_center : String → String → CreateCostCenterDto → Fin CostCenter
create_cost_center now id dto = do
  throw_if (is_empty dto.name || is_empty dto.code)
      (bad_request "Cost center code and name are required")
  existing ← gets (Repository.find_cost_center_by_code dto.code)
  throw_if (is_present existing) (bad_request "Cost center code already exists")
  Repository.create_cost_center
      (record { id = id; name = dto.name; code = dto.code; created_at = now; updated_at = now })

unfoldable pub list_cost_centers : Fin (List CostCenter)
list_cost_centers = gets Repository.find_all_cost_centers

unfoldable pub get_cost_center : String → Fin CostCenter
get_cost_center id = do
  or_throw (← gets (Repository.find_cost_center_by_id id)) (not_found "Cost center" id)

-- `if (id) { … if (!costCenter) throw … }`
abbrev pub check_cost_center : String → Fin Unit
check_cost_center id r =
    throw_if (not (is_empty id) && not (is_present (Repository.find_cost_center_by_id id r)))
      (not_found "Cost center" id) r

unfoldable pub new_budget : String → String → CreateBudgetDto → ℤ → Budget
new_budget now id dto total = record {
  id = id;
  cost_center_id = dto.cost_center_id;
  name = dto.name;
  total_amount = total;
  allocated_amount = pos 0;
  spent_amount = pos 0;
  period = dto.period;
  allocations = [];
  created_at = now;
  updated_at = now;
}

unfoldable pub create_budget : String → String → CreateBudgetDto → Fin Budget
unfolding new_budget
create_budget now id dto = do
  throw_if (is_empty dto.name || not (is_present dto.total_amount) || is_empty dto.period)
      (bad_request "Budget name, totalAmount, and period are required")
  total ←
      or_throw dto.total_amount (bad_request "Budget name, totalAmount, and period are required")
  throw_if (ltb_ℤ total (pos 0)) (bad_request "Total amount must be greater than or equal to 0")
  check_cost_center dto.cost_center_id
  Repository.create_budget (new_budget now id dto total)

unfoldable pub list_budgets : Fin (List Budget)
list_budgets = gets Repository.find_all_budgets

unfoldable pub get_budget : String → Fin Budget
get_budget id = do or_throw (← gets (Repository.find_budget_by_id id)) (not_found "Budget" id)

unfoldable pub new_allocation : String → String → CreateBudgetAllocationDto → ℤ → BudgetAllocation
new_allocation now id dto amount = record {
  id = id;
  budget_id = dto.budget_id;
  amount = amount;
  purpose = dto.purpose;
  created_at = now;
  updated_at = now;
}

unfoldable pub allocated_budget : String → ℤ → Budget → Budget
allocated_budget now amount b = record b {
  allocated_amount = b.allocated_amount +ℤ amount;
  updated_at = now;
}

unfoldable pub allocate_budget : String → String → CreateBudgetAllocationDto → Fin BudgetAllocation
unfolding new_allocation allocated_budget
allocate_budget now id dto = do
  throw_if (is_empty dto.budget_id || not (is_present dto.amount) || is_empty dto.purpose)
      (bad_request "budgetId, amount, and purpose are required")
  amount ← or_throw dto.amount (bad_request "budgetId, amount, and purpose are required")
  throw_if (leb_ℤ amount (pos 0)) (bad_request "Allocation amount must be greater than 0")
  found ← gets (Repository.find_budget_by_id dto.budget_id)
  budget ← or_throw found (not_found "Budget" dto.budget_id)
  throw_if (ltb_ℤ (budget.total_amount -ℤ budget.allocated_amount) amount)
      (bad_request "Allocation amount exceeds remaining unallocated budget")
  saved ← Repository.create_budget_allocation (new_allocation now id dto amount)
  Repository.update_budget (allocated_budget now amount budget)
  pure saved

unfoldable pub create_budget_allocation :
    String → String → CreateBudgetAllocationDto → Fin BudgetAllocation
unfolding allocate_budget
create_budget_allocation now id dto = allocate_budget now id dto

unfoldable pub list_budget_allocations : String → Fin (List BudgetAllocation)
list_budget_allocations budget_id = gets (Repository.find_budget_allocations budget_id)

-- The test of `checkBudgetAvailability` on what it has found.
abbrev pub is_available : Option Budget → ℤ → Bool
is_available none amount = false
is_available (some b) amount =
    leb_ℤ amount (b.total_amount -ℤ b.allocated_amount)
    && leb_ℤ amount (b.total_amount -ℤ b.spent_amount)

abbrev pub check_budget_availability : String → ℤ → FinanceRepository → Bool
check_budget_availability budget_id amount r =
    is_available (Repository.find_budget_by_id budget_id r) amount
