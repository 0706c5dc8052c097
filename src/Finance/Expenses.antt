-- ===== src/Finance/Expenses.antt =====
-- apps/api/src/modules/finance/finance.service.ts: the methods of the class FinanceService on
-- expenses. `now` is the clock's text, `id` the text of `randomUUID()`.
use autonomous_enterprise.Shared.{
  Action, not_found, bad_request, pure, gets, or_throw, throw_if, run_if, ◌>>=◌, ◌>>◌, is_empty,
  is_present, String, Bool, true, false, not, ◌&&◌, ◌||◌, Option, none, some, List,
}
use autonomous_enterprise.Shared.Int.{ℤ, pos, ◌+ℤ◌, leb_ℤ}
use autonomous_enterprise.Finance.Types.{
  Budget, Expense, ExpenseStatus, CreateExpenseDto, ApproveExpenseDto,
}
use autonomous_enterprise.Finance.Repository
use autonomous_enterprise.Finance.Repository.{FinanceRepository}
use autonomous_enterprise.Finance.Budgets.{check_cost_center, check_budget_availability}

abbrev Fin : Type 0 → Type 0
Fin A = Action FinanceRepository A

unfoldable pub new_expense : String → String → CreateExpenseDto → ℤ → Expense
new_expense now id dto amount = record {
  id = id;
  budget_id = dto.budget_id;
  cost_center_id = dto.cost_center_id;
  amount = amount;
  description = dto.description;
  status = ExpenseStatus.pending;
  requested_by = dto.requested_by;
  approved_by = "";
  created_at = now;
  updated_at = now;
}

unfoldable pub create_expense : String → String → CreateExpenseDto → Fin Expense
unfolding new_expense
create_expense now id dto = do
  throw_if (not (is_present dto.amount) || is_empty dto.description || is_empty dto.requested_by)
      (bad_request "amount, description, and requestedBy are required")
  amount ← or_throw dto.amount (bad_request "amount, description, and requestedBy are required")
  throw_if (leb_ℤ amount (pos 0)) (bad_request "Expense amount must be greater than 0")
  budget ← gets (Repository.find_budget_by_id dto.budget_id)
  throw_if (not (is_empty dto.budget_id) && not (is_present budget))
      (not_found "Budget" dto.budget_id)
  check_cost_center dto.cost_center_id
  Repository.create_expense (new_expense now id dto amount)

unfoldable pub list_expenses : Fin (List Expense)
list_expenses = gets Repository.find_all_expenses

unfoldable pub get_expense : String → Fin Expense
get_expense id = do or_throw (← gets (Repository.find_expense_by_id id)) (not_found "Expense" id)

abbrev pub is_pending : ExpenseStatus → Bool
is_pending ExpenseStatus.pending = true
is_pending _ = false

unfoldable pub charged_budget : String → ℤ → Budget → Budget
charged_budget now amount b = record b { spent_amount = b.spent_amount +ℤ amount; updated_at = now }

-- `if (budget) { budget.spentAmount += …; await updateBudget(budget); }`
abbrev charge_budget : String → ℤ → Option Budget → Fin Unit
charge_budget now amount none = pure tt
charge_budget now amount (some b) = do
  Repository.update_budget (charged_budget now amount b)
  pure tt

-- The part of `approveExpense` under `if (expense.budgetId)`.
unfoldable pub charge_expense : String → Expense → Fin Unit
unfolding charged_budget
charge_expense now e = do
  available ← gets (check_budget_availability e.budget_id e.amount)
  throw_if (not available) (bad_request "Expense approval failed: insufficient budget available")
  budget ← gets (Repository.find_budget_by_id e.budget_id)
  charge_budget now e.amount budget

unfoldable pub approved_expense : String → String → Expense → Expense
approved_expense now approved_by e = record e {
  status = ExpenseStatus.approved;
  approved_by = approved_by;
  updated_at = now;
}

unfoldable pub approve_expense : String → String → ApproveExpenseDto → Fin Expense
unfolding charge_expense approved_expense
approve_expense now expense_id dto = do
  found ← gets (Repository.find_expense_by_id expense_id)
  e ← or_throw found (not_found "Expense" expense_id)
  throw_if (not (is_pending e.status)) (bad_request "Cannot approve expense in this status")
  throw_if (is_empty dto.approved_by) (bad_request "approvedBy is required")
  run_if (not (is_empty e.budget_id)) (charge_expense now e)
  Repository.update_expense (approved_expense now dto.approved_by e)

unfoldable pub rejected_expense : String → Expense → Expense
rejected_expense now e = record e { status = ExpenseStatus.rejected; updated_at = now }

unfoldable pub reject_expense : String → String → Fin Expense
unfolding rejected_expense
reject_expense now expense_id = do
  found ← gets (Repository.find_expense_by_id expense_id)
  e ← or_throw found (not_found "Expense" expense_id)
  throw_if (not (is_pending e.status)) (bad_request "Cannot reject expense in this status")
  Repository.update_expense (rejected_expense now e)
