-- ===== src/Finance/Invariant.antt =====
-- What holds of the budgets between two calls: a budget's allocated amount is the sum of its
-- allocations, its spent amount the sum of its approved expenses, and neither exceeds its total.
use autonomous_enterprise.Shared.{
  arith, ◌≡◌, ◌≢◌, Store, lookup, insert, All, sum_by, lookup-insert, eq_iff, inl, inr, Bool-cases,
  is_empty, String, ◌==◌, Option, none, some, Bool, true, false, not, ◌&&◌, if◌then◌else◌,
}
use autonomous_enterprise.Shared.Int.{ℤ, pos, ◌≤ℤ◌}
use autonomous_enterprise.Finance.Types.{Budget, BudgetAllocation, Expense, ExpenseStatus}
use autonomous_enterprise.Finance.Repository.{FinanceRepository}

-- What an allocation takes of the budget `k`.
abbrev pub allocated : String → BudgetAllocation → ℤ
allocated k a = if a.budget_id == k then a.amount else pos 0

abbrev pub is_approved : ExpenseStatus → Bool
is_approved ExpenseStatus.approved = true
is_approved _ = false

-- What an expense has spent of the budget `k`.
abbrev pub spent : String → Expense → ℤ
spent k e =
    if is_approved e.status && not (is_empty e.budget_id) && e.budget_id == k
    then e.amount
    else pos 0

-- A budget under the key `k`, with the sums of its allocations and of its approved expenses.
abbrev pub BudgetAgrees : String → Option Budget → ℤ → ℤ → Type 0
BudgetAgrees k none allocations expenses = (allocations ≡ pos 0) × (expenses ≡ pos 0)
BudgetAgrees k (some b) allocations expenses =
    (b.id ≡ k)
    × (b.allocated_amount ≡ allocations)
    × (b.spent_amount ≡ expenses)
    × (allocations ≤ℤ b.total_amount)
    × (expenses ≤ℤ b.total_amount)

abbrev pub IsSound : String → Expense → Type 0
IsSound id e = (e.id ≡ id) × (pos 1 ≤ℤ e.amount)

pub record IsBudgeted (r : FinanceRepository) : Type 0 where
  pub budgets :
      (k : String)
      → BudgetAgrees k
          (lookup k r.budgets)
          (sum_by (allocated k) r.allocations)
          (sum_by (spent k) r.expenses)
  pub sound : All IsSound r.expenses

-- The budget under `k` after a write of one budget.
pub agrees_update :
    (k j : String) (b : Budget) (m : Store Budget) (a e a' e' : ℤ)
    → BudgetAgrees k (lookup k m) a e
    → (j ≡ k → BudgetAgrees k (some b) a' e')
    → (j ≢ k → (a' ≡ a) × (e' ≡ e))
    → BudgetAgrees k (lookup k (insert j b m)) a' e'
agrees_update k j b m a e a' e' h same other = elim (Bool-cases (j == k)) [
  | inl p ↦ rw (lookup-insert j k b m, p) (same ((eq_iff j k).0 p))
  | inr p ↦
      let (x, y) = other (λ q. cc (p, (eq_iff j k).1 q)) in rw (lookup-insert j k b m, p, x, y) h
]

-- A budget is stored under its own identifier.
pub stored_key :
    (r : FinanceRepository)
    → IsBudgeted r
    → (k : String) (b : Budget) → lookup k r.budgets ≡ some b
    → lookup b.id r.budgets ≡ some b
stored_key r h k b found = ground (arith, h.budgets k)
