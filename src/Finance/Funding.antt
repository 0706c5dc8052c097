-- ===== src/Finance/Funding.antt =====
-- `createBudgetAllocation` as a workflow sees it.
use autonomous_enterprise.Shared.{
  arith, ◌≡◌, lookup, insert, Option-cases, inl, inr, is_empty, String, some, none, false, true,
  Error, ok, err, after, result,
}
use autonomous_enterprise.Shared.Int.{ℤ, pos, ◌≤ℤ◌}
use autonomous_enterprise.Finance.Types.{Budget, CreateBudgetAllocationDto}
use autonomous_enterprise.Finance.Repository.{FinanceRepository, with_allocations}
use autonomous_enterprise.Finance.Budgets.{
  new_allocation, allocated_budget, allocate_budget, create_budget_allocation,
  check_budget_availability,
}
use autonomous_enterprise.Finance.Invariant.{IsBudgeted, stored_key}
use autonomous_enterprise.Finance.Allocating.{allocate_budget_lem, allocate_budget-IsBudgeted}

-- The repository after an allocation of the budget `b`.
abbrev pub funded :
    String → String → CreateBudgetAllocationDto → ℤ → Budget → FinanceRepository → FinanceRepository
funded now id dto amount b r = record r {
  allocations = insert id (new_allocation now id dto amount) r.allocations;
  budgets = insert b.id (allocated_budget now amount (with_allocations r b)) r.budgets;
}

-- An allocation that throws has changed nothing.
pub create_budget_allocation_atomic :
    (now id : String) (dto : CreateBudgetAllocationDto) (r : FinanceRepository) (e : Error)
    → IsBudgeted r
    → result (create_budget_allocation now id dto r) ≡ err e
    → after (create_budget_allocation now id dto r) ≡ r
unfolding create_budget_allocation allocate_budget
create_budget_allocation_atomic now id dto r e h failed =
    elim (Option-cases (lookup dto.budget_id r.budgets)) [
      | inl unknown ↦ ground arith
      | inr (b, found) ↦ ground (arith, stored_key r h dto.budget_id b found)
    ]

pub create_budget_allocation-IsBudgeted :
    (now id : String) (dto : CreateBudgetAllocationDto) (r : FinanceRepository)
    → IsBudgeted r
    → lookup id r.allocations ≡ none
    → IsBudgeted (after (create_budget_allocation now id dto r))
unfolding create_budget_allocation
create_budget_allocation-IsBudgeted now id dto r h fresh =
    allocate_budget-IsBudgeted now id dto r h fresh

-- A positive amount that is available is allocated.
pub create_budget_allocation_funds :
    (now id : String) (dto : CreateBudgetAllocationDto) (r : FinanceRepository) (amount : ℤ)
    (b : Budget)
    → IsBudgeted r
    → is_empty dto.budget_id ≡ false
    → is_empty dto.purpose ≡ false
    → dto.amount ≡ some amount
    → pos 1 ≤ℤ amount
    → lookup dto.budget_id r.budgets ≡ some b
    → check_budget_availability dto.budget_id amount r ≡ true
    → create_budget_allocation now id dto r
      ≡ (ok (new_allocation now id dto amount), funded now id dto amount b r)
unfolding create_budget_allocation
create_budget_allocation_funds now id dto r amount b h named purposed given positive found fits =
    allocate_budget_lem now id dto r amount b (ground arith) given (ground arith) found
      (ground arith) (stored_key r h dto.budget_id b found)
