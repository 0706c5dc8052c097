-- ===== src/Finance/Deciding.antt =====
-- `createExpense`, `approveExpense` and `rejectExpense` each change nothing when they throw, and
-- what they write when they return.
use autonomous_enterprise.Shared.{
  arith, ◌≡◌, lookup, insert, All-lookup, inl, inr, Option-cases, is_empty, or_else, String, none,
  some, true, false, Error, ok, err, after, result,
}
use autonomous_enterprise.Shared.Int.{pos, ◌-ℤ◌, ◌≤ℤ◌}
use autonomous_enterprise.Finance.Types.{Budget, Expense, CreateExpenseDto, ApproveExpenseDto}
use autonomous_enterprise.Finance.Repository.{FinanceRepository, with_allocations}
use autonomous_enterprise.Finance.Expenses.{
  is_pending, new_expense, create_expense, charged_budget, approved_expense, approve_expense,
  rejected_expense, reject_expense,
}
use autonomous_enterprise.Finance.Invariant.{IsSound, IsBudgeted}

-- An expense is stored under its own identifier.
pub stored_expense :
    (r : FinanceRepository)
    → IsBudgeted r
    → (id : String) (e : Expense) → lookup id r.expenses ≡ some e
    → (lookup e.id r.expenses ≡ some e) × (e.id ≡ id) × (pos 1 ≤ℤ e.amount)
stored_expense r h id e found = ground (arith, All-lookup IsSound id e r.expenses h.sound found)

-- A refused call of the three changes nothing, provided that the stored identifiers agree.
pub create_expense_atomic :
    (now id : String) (dto : CreateExpenseDto) (r : FinanceRepository) (x : Error)
    → result (create_expense now id dto r) ≡ err x
    → after (create_expense now id dto r) ≡ r
unfolding create_expense
create_expense_atomic now id dto r x failed = ground arith

pub create_expense_written :
    (now id : String) (dto : CreateExpenseDto) (r : FinanceRepository) (e : Expense)
    → result (create_expense now id dto r) ≡ ok e
    → let new = new_expense now id dto (or_else dto.amount (pos 0)) in
      (e ≡ new)
      × (pos 1 ≤ℤ or_else dto.amount (pos 0))
      × (after (create_expense now id dto r) ≡ record r { expenses = insert id new r.expenses })
unfolding create_expense
create_expense_written now id dto r e done = ground arith

pub reject_expense_atomic :
    (now id : String) (r : FinanceRepository) (x : Error)
    → result (reject_expense now id r) ≡ err x
    → after (reject_expense now id r) ≡ r
unfolding reject_expense
reject_expense_atomic now id r x failed = ground arith

pub reject_unknown :
    (now id : String) (r : FinanceRepository) (x : Expense)
    → lookup id r.expenses ≡ none
    → ¬ (result (reject_expense now id r) ≡ ok x)
unfolding reject_expense
reject_unknown now id r x unknown done = ground arith

pub approve_unknown :
    (now id : String) (dto : ApproveExpenseDto) (r : FinanceRepository) (x : Expense)
    → lookup id r.expenses ≡ none
    → ¬ (result (approve_expense now id dto r) ≡ ok x)
unfolding approve_expense
approve_unknown now id dto r x unknown done = ground arith

pub reject_expense_written :
    (now id : String) (r : FinanceRepository) (e x : Expense)
    → lookup id r.expenses ≡ some e
    → result (reject_expense now id r) ≡ ok x
    → (is_pending e.status ≡ true)
      × (x ≡ rejected_expense now e)
      × (after (reject_expense now id r)
          ≡ record r { expenses = insert e.id (rejected_expense now e) r.expenses })
unfolding reject_expense
reject_expense_written now id r e x found done = ground arith

pub approve_expense_atomic :
    (now id : String) (dto : ApproveExpenseDto) (r : FinanceRepository) (x : Error)
    → IsBudgeted r
    → result (approve_expense now id dto r) ≡ err x
    → after (approve_expense now id dto r) ≡ r
unfolding approve_expense
approve_expense_atomic now id dto r x h failed = elim (Option-cases (lookup id r.expenses)) [
  | inl unknown ↦ ground arith
  | inr (e, found) ↦ ground (arith, stored_expense r h id e found)
]

-- An expense without a budget is approved with no charge.
pub approve_unbudgeted :
    (now id : String) (dto : ApproveExpenseDto) (r : FinanceRepository) (e x : Expense)
    → lookup id r.expenses ≡ some e
    → is_empty e.budget_id ≡ true
    → result (approve_expense now id dto r) ≡ ok x
    → (is_pending e.status ≡ true)
      × (x ≡ approved_expense now dto.approved_by e)
      × (after (approve_expense now id dto r)
          ≡ record r { expenses = insert e.id (approved_expense now dto.approved_by e) r.expenses })
unfolding approve_expense
approve_unbudgeted now id dto r e x found free done = ground arith

-- One with a budget only if the budget is there and has room for it.
pub approve_missing :
    (now id : String) (dto : ApproveExpenseDto) (r : FinanceRepository) (e x : Expense)
    → lookup id r.expenses ≡ some e
    → is_empty e.budget_id ≡ false
    → lookup e.budget_id r.budgets ≡ none
    → ¬ (result (approve_expense now id dto r) ≡ ok x)
unfolding approve_expense
approve_missing now id dto r e x found budgeted missing done = ground arith

pub approve_budgeted :
    (now id : String) (dto : ApproveExpenseDto) (r : FinanceRepository) (e x : Expense) (b : Budget)
    → lookup id r.expenses ≡ some e
    → is_empty e.budget_id ≡ false
    → lookup e.budget_id r.budgets ≡ some b
    → lookup b.id r.budgets ≡ some b
    → result (approve_expense now id dto r) ≡ ok x
    → (is_pending e.status ≡ true)
      × (x ≡ approved_expense now dto.approved_by e)
      × (e.amount ≤ℤ b.total_amount -ℤ b.spent_amount)
      × (after (approve_expense now id dto r) ≡ record r {
        budgets = insert b.id (charged_budget now e.amount (with_allocations r b)) r.budgets;
        expenses = insert e.id (approved_expense now dto.approved_by e) r.expenses;
      })
unfolding approve_expense
approve_budgeted now id dto r e x b found budgeted there keyed done = ground arith
