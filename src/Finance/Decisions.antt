-- ===== src/Finance/Decisions.antt =====
-- A decided expense stays decided, and an available amount can be allocated.
use autonomous_enterprise.Shared.{
  arith, ◌≡◌, lookup, insert, lookup-insert, eq_iff, inl, inr, Option-cases, Bool-cases, String,
  is_empty, or_else, Store, none, some, true, false, ok, after, result, after-cases,
}
use autonomous_enterprise.Shared.Int.{ℤ, pos, ◌≤ℤ◌}
use autonomous_enterprise.Finance.Types.{
  Expense, CreateBudgetAllocationDto, CreateExpenseDto, CreateBudgetDto, CreateCostCenterDto,
  ApproveExpenseDto,
}
use autonomous_enterprise.Finance.Repository.{FinanceRepository}
use autonomous_enterprise.Finance.Budgets.{
  create_cost_center, create_budget, create_budget_allocation, new_allocation,
  check_budget_availability,
}
use autonomous_enterprise.Finance.Expenses.{
  is_pending, new_expense, create_expense, approve_expense, reject_expense,
}
use autonomous_enterprise.Finance.Invariant.{IsBudgeted, stored_key}
use autonomous_enterprise.Finance.Deciding.{
  stored_expense, reject_expense_atomic, reject_unknown, reject_expense_written,
  approve_expense_atomic, approve_unknown, approve_unbudgeted, approve_missing, approve_budgeted,
}
use autonomous_enterprise.Finance.Traces.{
  Step, creates_cost_center, creates_budget, allocates, creates_expense, approves, rejects, Reach,
  Reach-IsBudgeted,
}

-- A write of a pending expense is not a write of the decided one.
kept_apart :
    (id : String) (e : Expense) (j : String) (x y : Expense) (m : Store Expense)
    → lookup id m ≡ some e
    → is_pending e.status ≡ false
    → lookup x.id m ≡ some x
    → is_pending x.status ≡ true
    → lookup id (insert x.id y m) ≡ some e
kept_apart id e j x y m found decided there waits =
    ground (arith, lookup-insert x.id id y m, eq_iff x.id id)

module _ (r : FinanceRepository) (h : IsBudgeted r) (id : String) (e : Expense)
    (found : lookup id r.expenses ≡ some e) (decided : is_pending e.status ≡ false) where
  approve_keeps :
      (now j : String) (dto : ApproveExpenseDto)
      → lookup id (after (approve_expense now j dto r)).expenses ≡ some e
  approve_keeps now j dto =
      after-cases (λ t. lookup id t.expenses ≡ some e) (approve_expense now j dto r)
        (λ x failed. rw (approve_expense_atomic now j dto r x h failed) found)
        (λ x done. elim (Option-cases (lookup j r.expenses)) [
          | inl unknown ↦ absurd (approve_unknown now j dto r x unknown done)
          | inr (y, there) ↦ elim (Bool-cases (is_empty y.budget_id)) [
            | inl free ↦
                let (waits, _, written) = approve_unbudgeted now j dto r y x there free done in
                rw written (
                  kept_apart id e j y _ r.expenses found decided (stored_expense r h j y there).0
                    waits)
            | inr budgeted ↦ elim (Option-cases (lookup y.budget_id r.budgets)) [
              | inl missing ↦ absurd (approve_missing now j dto r y x there budgeted missing done)
              | inr (b, kept) ↦
                  let (waits, _, fits, written) =
                    approve_budgeted now j dto r y x b there budgeted kept
                      (stored_key r h y.budget_id b kept) done in
                  rw written (
                    kept_apart id e j y _ r.expenses found decided (stored_expense r h j y there).0
                      waits)
            ]
          ]
        ])

  reject_keeps : (now j : String) → lookup id (after (reject_expense now j r)).expenses ≡ some e
  reject_keeps now j =
      after-cases (λ t. lookup id t.expenses ≡ some e) (reject_expense now j r)
        (λ x failed. rw (reject_expense_atomic now j r x failed) found)
        (λ x done. elim (Option-cases (lookup j r.expenses)) [
          | inl unknown ↦ absurd (reject_unknown now j r x unknown done)
          | inr (y, there) ↦
              let (waits, _, written) = reject_expense_written now j r y x there done in
              rw written (
                kept_apart id e j y _ r.expenses found decided (stored_expense r h j y there).0
                  waits)
        ])

  create_keeps :
      (now j : String) (dto : CreateExpenseDto)
      → lookup j r.expenses ≡ none
      → lookup id (after (create_expense now j dto r)).expenses ≡ some e
  unfolding create_expense
  create_keeps now j dto fresh = ground (
    arith,
    lookup-insert j id (new_expense now j dto (or_else dto.amount (pos 0))) r.expenses,
    eq_iff j id,
  )

  cost_center_keeps :
      (now j : String) (dto : CreateCostCenterDto)
      → lookup id (after (create_cost_center now j dto r)).expenses ≡ some e
  unfolding create_cost_center
  cost_center_keeps now j dto = ground arith

  budget_keeps :
      (now j : String) (dto : CreateBudgetDto)
      → lookup id (after (create_budget now j dto r)).expenses ≡ some e
  unfolding create_budget
  budget_keeps now j dto = ground arith

  allocate_keeps :
      (now j : String) (dto : CreateBudgetAllocationDto)
      → lookup id (after (create_budget_allocation now j dto r)).expenses ≡ some e
  unfolding create_budget_allocation
  allocate_keeps now j dto = ground arith

-- In a reached state, an expense that is approved or rejected is stored unchanged after a next
-- call, whatever the call.
pub Step-decided :
    {r t : FinanceRepository} (id : String) (e : Expense)
    → Reach r
    → lookup id r.expenses ≡ some e
    → is_pending e.status ≡ false
    → Step r t
    → lookup id t.expenses ≡ some e
Step-decided {r} id e reach found decided (creates_cost_center now j dto) =
    cost_center_keeps r (Reach-IsBudgeted reach) id e found decided now j dto
Step-decided {r} id e reach found decided (creates_budget now j dto fresh) =
    budget_keeps r (Reach-IsBudgeted reach) id e found decided now j dto
Step-decided {r} id e reach found decided (allocates now j dto fresh) =
    allocate_keeps r (Reach-IsBudgeted reach) id e found decided now j dto
Step-decided {r} id e reach found decided (creates_expense now j dto fresh) =
    create_keeps r (Reach-IsBudgeted reach) id e found decided now j dto fresh
Step-decided {r} id e reach found decided (approves now j dto) =
    approve_keeps r (Reach-IsBudgeted reach) id e found decided now j dto
Step-decided {r} id e reach found decided (rejects now j) =
    reject_keeps r (Reach-IsBudgeted reach) id e found decided now j

-- In a reached state, an amount of at least the unit that `checkBudgetAvailability` reports as
-- available is allocated by a call that names the budget and a purpose: the call returns the new
-- allocation.
pub allocate_available :
    (now id : String) (dto : CreateBudgetAllocationDto) (amount : ℤ) (r : FinanceRepository)
    → Reach r
    → is_empty dto.budget_id ≡ false
    → is_empty dto.purpose ≡ false
    → dto.amount ≡ some amount
    → pos 1 ≤ℤ amount
    → check_budget_availability dto.budget_id amount r ≡ true
    → result (create_budget_allocation now id dto r) ≡ ok (new_allocation now id dto amount)
unfolding create_budget_allocation
allocate_available now id dto amount r reach named purpose given positive available =
    elim (Option-cases (lookup dto.budget_id r.budgets)) [
      | inl missing ↦ ground arith
      | inr (b, there) ↦ ground (arith, stored_key r (Reach-IsBudgeted reach) dto.budget_id b there)
    ]
