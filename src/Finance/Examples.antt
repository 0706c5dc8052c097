-- ===== src/Finance/Examples.antt =====
-- Runs of the finance service on one budget.
use autonomous_enterprise.Shared.{
  ◌≡◌, refl, ok, lookup, insert, some, true, false, after, result, find_value, arith,
}
use autonomous_enterprise.Shared.Int.{pos, ◌+ℤ◌, ◌-ℤ◌}
use autonomous_enterprise.Finance.Types.{
  CreateBudgetDto, CreateBudgetAllocationDto, CreateExpenseDto, ApproveExpenseDto, Expense,
}
use autonomous_enterprise.Finance.Repository.{FinanceRepository}
use autonomous_enterprise.Finance.Budgets.{
  create_budget, new_budget, create_budget_allocation, allocate_budget, new_allocation,
  allocated_budget, check_budget_availability,
}
use autonomous_enterprise.Finance.Expenses.{
  create_expense, new_expense, approve_expense, approved_expense, charge_expense, charged_budget,
  reject_expense, is_pending,
}
use autonomous_enterprise.Finance.Invariant.{IsBudgeted}
use autonomous_enterprise.Finance.Traces.{
  empty_finance, creates_budget, allocates, creates_expense, approves, rejects, Reach, start, next,
  Reach-IsBudgeted,
}
use autonomous_enterprise.Finance.Decisions.{Step-decided, allocate_available}

abbrev budget : CreateBudgetDto
budget = record {
  name = "Tools";
  total_amount = some (pos 100);
  period = "2026";
  cost_center_id = "";
}

abbrev share : CreateBudgetAllocationDto
share = record { budget_id = "b"; amount = some (pos 60); purpose = "Anvils" }

abbrev trip : CreateExpenseDto
trip = record {
  amount = some (pos 30);
  description = "Trip";
  requested_by = "ann";
  budget_id = "b";
  cost_center_id = "";
}

abbrev yes : ApproveExpenseDto
yes = record { approved_by = "bob" }

abbrev funded : FinanceRepository
funded = after (create_budget "t1" "b" budget empty_finance)

abbrev shared : FinanceRepository
shared = after (create_budget_allocation "t2" "a" share funded)

abbrev asked : FinanceRepository
asked = after (create_expense "t3" "e" trip shared)

abbrev approved : FinanceRepository
approved = after (approve_expense "t4" "e" yes asked)

abbrev approved_trip : Expense
approved_trip = approved_expense "t4" "bob" (new_expense "t3" "e" trip (pos 30))

funded-Reach : Reach funded
unfolding empty_finance create_budget new_budget create_budget_allocation allocate_budget
    new_allocation allocated_budget create_expense new_expense approve_expense approved_expense
    charge_expense charged_budget lookup insert find_value ◌-ℤ◌ ◌+ℤ◌
funded-Reach = next start (creates_budget "t1" "b" budget refl)

approved-Reach : Reach approved
unfolding empty_finance create_budget new_budget create_budget_allocation allocate_budget
    new_allocation allocated_budget create_expense new_expense approve_expense approved_expense
    charge_expense charged_budget lookup insert find_value ◌-ℤ◌ ◌+ℤ◌
approved-Reach =
    next
      (next (next funded-Reach (allocates "t2" "a" share refl))
        (creates_expense "t3" "e" trip refl))
      (approves "t4" "e" yes)

Reach-IsBudgeted_example : IsBudgeted approved
Reach-IsBudgeted_example = Reach-IsBudgeted approved-Reach

approved-found : lookup "e" approved.expenses ≡ some approved_trip
unfolding empty_finance create_budget new_budget create_budget_allocation allocate_budget
    new_allocation allocated_budget create_expense new_expense approve_expense approved_expense
    charge_expense charged_budget lookup insert find_value ◌-ℤ◌ ◌+ℤ◌
approved-found = refl

approved-decided : is_pending approved_trip.status ≡ false
unfolding empty_finance create_budget new_budget create_budget_allocation allocate_budget
    new_allocation allocated_budget create_expense new_expense approve_expense approved_expense
    charge_expense charged_budget lookup insert find_value ◌-ℤ◌ ◌+ℤ◌
approved-decided = refl

Step-decided_example :
    lookup "e" (after (reject_expense "t5" "e" approved)).expenses ≡ some approved_trip
Step-decided_example =
    Step-decided "e" approved_trip approved-Reach approved-found approved-decided (rejects "t5" "e")

share-fits : check_budget_availability "b" (pos 60) funded ≡ true
unfolding empty_finance create_budget new_budget create_budget_allocation allocate_budget
    new_allocation allocated_budget create_expense new_expense approve_expense approved_expense
    charge_expense charged_budget lookup insert find_value ◌-ℤ◌ ◌+ℤ◌
share-fits = refl

allocate_available_example :
    result (create_budget_allocation "t2" "a" share funded)
    ≡ ok (new_allocation "t2" "a" share (pos 60))
allocate_available_example =
    allocate_available "t2" "a" share (pos 60) funded funded-Reach refl refl refl (omega arith)
      share-fits
