-- ===== src/Finance/Keeping.antt =====
-- `createExpense`, `approveExpense` and `rejectExpense` keep the budgets in agreement.
use autonomous_enterprise.Shared.{
  ◌≡◌, ◌≢◌, refl, lookup, insert, All, All-insert, sum_by, sum_by-insert_new, sum_by-insert_old,
  eq_iff, inl, inr, Option-cases, Bool-cases, is_empty, or_else, String, none, some, true, false,
  ok, after, result, after-cases,
}
use autonomous_enterprise.Shared.Int.{ℤ, pos, ◌+ℤ◌, ◌-ℤ◌, ◌≤ℤ◌, int_laws}
use autonomous_enterprise.Finance.Types.{Budget, Expense, CreateExpenseDto, ApproveExpenseDto}
use autonomous_enterprise.Finance.Repository.{FinanceRepository, with_allocations}
use autonomous_enterprise.Finance.Expenses.{
  is_pending, new_expense, create_expense, charged_budget, approved_expense, approve_expense,
  rejected_expense, reject_expense,
}
use autonomous_enterprise.Finance.Invariant.{
  allocated, spent, BudgetAgrees, IsSound, IsBudgeted, stored_key, agrees_update,
}
use autonomous_enterprise.Finance.Deciding.{
  reject_unknown, approve_unknown, stored_expense, create_expense_atomic, create_expense_written,
  reject_expense_atomic, reject_expense_written, approve_expense_atomic, approve_unbudgeted,
  approve_missing, approve_budgeted,
}

-- A new expense is not counted.
created_total :
    (now id k : String) (dto : CreateExpenseDto) (amount : ℤ) (r : FinanceRepository)
    → lookup id r.expenses ≡ none
    → sum_by (spent k) (insert id (new_expense now id dto amount) r.expenses)
      ≡ sum_by (spent k) r.expenses
unfolding new_expense
created_total now id k dto amount r fresh =
    grind
      (int_laws, sum_by-insert_new (spent k) id (new_expense now id dto amount) r.expenses fresh)

-- An expense that was pending was not counted, and is counted only once it is approved.
module _ (r : FinanceRepository) (h : IsBudgeted r) (id : String) (e : Expense)
    (found : lookup id r.expenses ≡ some e) (waits : is_pending e.status ≡ true) where
  rejected_total :
      (now k : String)
      → sum_by (spent k) (insert e.id (rejected_expense now e) r.expenses)
        ≡ sum_by (spent k) r.expenses
  unfolding rejected_expense
  rejected_total now k = grind (
    int_laws,
    sum_by-insert_old (spent k) e.id (rejected_expense now e) e r.expenses
        (stored_expense r h id e found).0,
  )

  approved_total :
      (now by k : String)
      → sum_by (spent k) (insert e.id (approved_expense now by e) r.expenses)
        ≡ sum_by (spent k) r.expenses +ℤ spent k (approved_expense now by e)
  unfolding approved_expense
  approved_total now by k = grind (
    int_laws,
    sum_by-insert_old (spent k) e.id (approved_expense now by e) e r.expenses
        (stored_expense r h id e found).0,
  )

  -- The charged budget agrees with the sum that the approval has raised.
  module _ (now by : String) (budgeted : is_empty e.budget_id ≡ false) (b : Budget)
      (there : lookup e.budget_id r.budgets ≡ some b) where
    charged_same :
        (k : String)
        → e.amount ≤ℤ b.total_amount -ℤ b.spent_amount
        → b.id ≡ k
        → BudgetAgrees k
            (some (charged_budget now e.amount (with_allocations r b)))
            (sum_by (allocated k) r.allocations)
            (sum_by (spent k) (insert e.id (approved_expense now by e) r.expenses))
    unfolding charged_budget approved_expense
    charged_same k fits same =
        grind (int_laws, h.budgets e.budget_id, approved_total now by k, eq_iff e.budget_id k)

    charged_other :
        (k : String)
        → b.id ≢ k
        → (sum_by (allocated k) r.allocations ≡ sum_by (allocated k) r.allocations)
          × (sum_by (spent k) (insert e.id (approved_expense now by e) r.expenses)
              ≡ sum_by (spent k) r.expenses)
    unfolding approved_expense
    charged_other k ne = (
      refl,
      grind (int_laws, h.budgets e.budget_id, approved_total now by k, eq_iff e.budget_id k),
    )

  -- What an approval writes agrees, without a budget and with one.
  module _ (now by : String) where
    approved_expense-IsSound : All IsSound (insert e.id (approved_expense now by e) r.expenses)
    unfolding approved_expense
    approved_expense-IsSound =
        All-insert IsSound e.id (approved_expense now by e) r.expenses h.sound
          (refl, (stored_expense r h id e found).2)

    unbudgeted_total :
        (k : String)
        → is_empty e.budget_id ≡ true
        → sum_by (spent k) (insert e.id (approved_expense now by e) r.expenses)
          ≡ sum_by (spent k) r.expenses
    unfolding approved_expense
    unbudgeted_total k free = grind (int_laws, approved_total now by k)

    approve_without_budget :
        is_empty e.budget_id ≡ true
        → IsBudgeted (record r { expenses = insert e.id (approved_expense now by e) r.expenses })
    approve_without_budget free = record {
      budgets = λ k. rw (unbudgeted_total k free) (h.budgets k);
      sound = approved_expense-IsSound;
    }

    approve_with_budget :
        (b : Budget)
        → is_empty e.budget_id ≡ false
        → lookup e.budget_id r.budgets ≡ some b
        → e.amount ≤ℤ b.total_amount -ℤ b.spent_amount
        → IsBudgeted (record r {
          budgets = insert b.id (charged_budget now e.amount (with_allocations r b)) r.budgets;
          expenses = insert e.id (approved_expense now by e) r.expenses;
        })
    approve_with_budget b budgeted there fits = record {
      budgets = λ k.
          agrees_update k b.id (charged_budget now e.amount (with_allocations r b)) r.budgets _ _ _
            _ (h.budgets k) (charged_same now by budgeted b there k fits)
            (charged_other now by budgeted b there k);
      sound = approved_expense-IsSound;
    }

pub create_expense-IsBudgeted :
    (now id : String) (dto : CreateExpenseDto) (r : FinanceRepository)
    → IsBudgeted r
    → lookup id r.expenses ≡ none
    → IsBudgeted (after (create_expense now id dto r))
unfolding new_expense
create_expense-IsBudgeted now id dto r h fresh =
    after-cases IsBudgeted (create_expense now id dto r)
      (λ x failed. rw (create_expense_atomic now id dto r x failed) h)
      (λ e done.
        let (_, positive, written) = create_expense_written now id dto r e done in
        let amount = or_else dto.amount (pos 0) in
        rw written record {
          budgets = λ k. rw (created_total now id k dto amount r fresh) (h.budgets k);
          sound =
              All-insert IsSound id (new_expense now id dto amount) r.expenses h.sound
                (refl, positive);
        })

pub reject_expense-IsBudgeted :
    (now id : String) (r : FinanceRepository)
    → IsBudgeted r
    → IsBudgeted (after (reject_expense now id r))
unfolding rejected_expense
reject_expense-IsBudgeted now id r h =
    after-cases IsBudgeted (reject_expense now id r)
      (λ x failed. rw (reject_expense_atomic now id r x failed) h)
      (λ x done. elim (Option-cases (lookup id r.expenses)) [
        | inl unknown ↦ absurd (reject_unknown now id r x unknown done)
        | inr (e, found) ↦
            let (waits, _, written) = reject_expense_written now id r e x found done in
            rw written record {
              budgets = λ k. rw (rejected_total r h id e found waits now k) (h.budgets k);
              sound =
                  All-insert IsSound e.id (rejected_expense now e) r.expenses h.sound
                    (refl, (stored_expense r h id e found).2);
            }
      ])

-- The successful approval of a stored expense.
approved-IsBudgeted :
    (now id : String) (dto : ApproveExpenseDto) (r : FinanceRepository) (e x : Expense)
    → IsBudgeted r
    → lookup id r.expenses ≡ some e
    → result (approve_expense now id dto r) ≡ ok x
    → IsBudgeted (after (approve_expense now id dto r))
approved-IsBudgeted now id dto r e x h found done = elim (Bool-cases (is_empty e.budget_id)) [
  | inl free ↦
      let (waits, _, written) = approve_unbudgeted now id dto r e x found free done in
      rw written (approve_without_budget r h id e found waits now dto.approved_by free)
  | inr budgeted ↦ elim (Option-cases (lookup e.budget_id r.budgets)) [
    | inl missing ↦ absurd (approve_missing now id dto r e x found budgeted missing done)
    | inr (b, there) ↦
        let keyed = stored_key r h e.budget_id b there in
        let (waits, _, fits, written) =
          approve_budgeted now id dto r e x b found budgeted there keyed done in
        rw written
          (approve_with_budget r h id e found waits now dto.approved_by b budgeted there fits)
  ]
]

pub approve_expense-IsBudgeted :
    (now id : String) (dto : ApproveExpenseDto) (r : FinanceRepository)
    → IsBudgeted r
    → IsBudgeted (after (approve_expense now id dto r))
approve_expense-IsBudgeted now id dto r h =
    after-cases IsBudgeted (approve_expense now id dto r)
      (λ x failed. rw (approve_expense_atomic now id dto r x h failed) h)
      (λ x done. elim (Option-cases (lookup id r.expenses)) [
        | inl unknown ↦ absurd (approve_unknown now id dto r x unknown done)
        | inr (e, found) ↦ approved-IsBudgeted now id dto r e x h found done
      ])
