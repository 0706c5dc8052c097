-- ===== src/Finance/Repository.antt =====
-- apps/api/src/modules/finance/infrastructure/in-memory-finance.repository.ts: the maps of the class
-- InMemoryFinanceRepository and its methods. A `find` is a function of the state, a write an action.
use autonomous_enterprise.Shared.{
  Action, modify, pure, ok, err, fault, ◌>>◌, Store, lookup, insert, values, find_value, filter_by,
  is_empty, is_present, String, ◌==◌, ◌||◌, if◌then◌else◌, Option, none, some, List, [], ◌∷◌,
}
use autonomous_enterprise.Finance.Types.{CostCenter, Budget, BudgetAllocation, Expense}

pub record FinanceRepository : Type 0 where
  pub cost_centers : Store CostCenter
  pub budgets : Store Budget
  pub allocations : Store BudgetAllocation
  pub expenses : Store Expense

abbrev Repo : Type 0 → Type 0
Repo A = Action FinanceRepository A

abbrev pub create_cost_center : CostCenter → Repo CostCenter
create_cost_center c = do
  modify (λ r. record r { cost_centers = insert c.id c r.cost_centers })
  pure c

abbrev pub find_cost_center_by_id : String → FinanceRepository → Option CostCenter
find_cost_center_by_id id r = lookup id r.cost_centers

abbrev pub find_cost_center_by_code : String → FinanceRepository → Option CostCenter
find_cost_center_by_code code r = find_value (λ c. c.code == code) r.cost_centers

abbrev pub find_all_cost_centers : FinanceRepository → List CostCenter
find_all_cost_centers r = values r.cost_centers

abbrev pub create_budget : Budget → Repo Budget
create_budget b = do modify (λ r. record r { budgets = insert b.id b r.budgets }); pure b

unfoldable pub find_budget_allocations : String → FinanceRepository → List BudgetAllocation
find_budget_allocations budget_id r =
    filter_by (λ a. is_empty budget_id || a.budget_id == budget_id) (values r.allocations)

-- A budget is read with the allocations of the moment.
abbrev pub with_allocations : FinanceRepository → Budget → Budget
with_allocations r b = record b { allocations = find_budget_allocations b.id r }

abbrev read_budget : FinanceRepository → Option Budget → Option Budget
read_budget r none = none
read_budget r (some b) = some (with_allocations r b)

abbrev pub find_budget_by_id : String → FinanceRepository → Option Budget
find_budget_by_id id r = read_budget r (lookup id r.budgets)

read_all : FinanceRepository → List Budget → List Budget
read_all r [] = []
read_all r (b ∷ bs) = with_allocations r b ∷ read_all r bs

unfoldable pub find_all_budgets : FinanceRepository → List Budget
unfolding read_all
find_all_budgets r = read_all r (values r.budgets)

abbrev pub update_budget : Budget → Repo Budget
update_budget b r =
    if is_present (lookup b.id r.budgets)
    then (ok b, record r { budgets = insert b.id b r.budgets })
    else (err (fault "Budget" b.id), r)

abbrev pub create_budget_allocation : BudgetAllocation → Repo BudgetAllocation
create_budget_allocation a = do
  modify (λ r. record r { allocations = insert a.id a r.allocations })
  pure a

abbrev pub create_expense : Expense → Repo Expense
create_expense e = do modify (λ r. record r { expenses = insert e.id e r.expenses }); pure e

abbrev pub find_expense_by_id : String → FinanceRepository → Option Expense
find_expense_by_id id r = lookup id r.expenses

abbrev pub find_all_expenses : FinanceRepository → List Expense
find_all_expenses r = values r.expenses

abbrev pub update_expense : Expense → Repo Expense
update_expense e r =
    if is_present (lookup e.id r.expenses)
    then (ok e, record r { expenses = insert e.id e r.expenses })
    else (err (fault "Expense" e.id), r)
