-- ===== src/Finance/Allocating.antt =====
-- `createBudget` and `allocateBudget` keep the budgets in agreement.
use autonomous_enterprise.Shared.{
  arith, ◌≡◌, ◌≢◌, refl, lookup, insert, sum_by, sum_by-insert_new, eq_iff, inl, inr, Option-cases,
  Bool-cases, is_empty, is_present, not, ◌||◌, String, none, some, or_else, false, Error, ok, err,
  after, result, after-cases,
}
use autonomous_enterprise.Shared.Int.{
  ℤ, pos, ◌-ℤ◌, ◌≤ℤ◌, ltb_ℤ, leb_ℤ, int_laws, ltb_ℤ→ge, leb_ℤ→gt,
}
use autonomous_enterprise.Finance.Types.{Budget, CreateBudgetDto, CreateBudgetAllocationDto}
use autonomous_enterprise.Finance.Repository.{FinanceRepository, with_allocations}
use autonomous_enterprise.Finance.Budgets.{
  new_allocation, allocated_budget, allocate_budget, create_budget, new_budget,
}
use autonomous_enterprise.Finance.Invariant.{
  allocated, spent, BudgetAgrees, IsBudgeted, stored_key, agrees_update,
}

-- A call that passes every test writes the allocation and the budget.
pub allocate_budget_lem :
    (now id : String) (dto : CreateBudgetAllocationDto) (r : FinanceRepository) (amount : ℤ)
    (b : Budget)
    → (is_empty dto.budget_id || not (is_present dto.amount) || is_empty dto.purpose) ≡ false
    → dto.amount ≡ some amount
    → leb_ℤ amount (pos 0) ≡ false
    → lookup dto.budget_id r.budgets ≡ some b
    → ltb_ℤ (b.total_amount -ℤ b.allocated_amount) amount ≡ false
    → lookup b.id r.budgets ≡ some b
    → allocate_budget now id dto r ≡ (
      ok (new_allocation now id dto amount),
      record r {
        allocations = insert id (new_allocation now id dto amount) r.allocations;
        budgets = insert b.id (allocated_budget now amount (with_allocations r b)) r.budgets;
      },
    )
unfolding allocate_budget
allocate_budget_lem now id dto r amount b e given positive found fits there = ground arith

-- A call throws and changes nothing, or writes the allocation and the budget.
allocate_budget_cases :
    (Q : FinanceRepository → Type 0) (now id : String) (dto : CreateBudgetAllocationDto)
    (r : FinanceRepository)
    → ((b : Budget) → lookup dto.budget_id r.budgets ≡ some b → lookup b.id r.budgets ≡ some b)
    → Q r
    → ((amount : ℤ) (b : Budget)
        → lookup dto.budget_id r.budgets ≡ some b
        → pos 1 ≤ℤ amount
        → amount ≤ℤ b.total_amount -ℤ b.allocated_amount
        → Q (record r {
          allocations = insert id (new_allocation now id dto amount) r.allocations;
          budgets = insert b.id (allocated_budget now amount (with_allocations r b)) r.budgets;
        }))
    → Q (after (allocate_budget now id dto r))
unfolding allocate_budget
allocate_budget_cases Q now id dto r keyed q step =
    elim (Bool-cases
      (is_empty dto.budget_id || not (is_present dto.amount) || is_empty dto.purpose)) [
        | inl e ↦ rw e q
        | inr e ↦ elim (Option-cases dto.amount) [
          | inl none_given ↦ rw (e, none_given) q
          | inr (amount, given) ↦ elim (Bool-cases (leb_ℤ amount (pos 0))) [
            | inl small ↦ rw (e, given, small) q
            | inr positive ↦ elim (Option-cases (lookup dto.budget_id r.budgets)) [
              | inl unknown ↦ rw (e, given, positive, unknown) q
              | inr (b, found) ↦
                  elim (Bool-cases (ltb_ℤ (b.total_amount -ℤ b.allocated_amount) amount)) [
                    | inl over ↦ rw (e, given, positive, found, over) q
                    | inr fits ↦
                        rw
                          (allocate_budget_lem now id dto r amount b e given positive found fits
                            (keyed b found))
                          (step amount b found (omega (arith, leb_ℤ→gt amount (pos 0) positive))
                            (ltb_ℤ→ge (b.total_amount -ℤ b.allocated_amount) amount fits))
                  ]
            ]
          ]
        ]
      ]

module _ (now id : String) (dto : CreateBudgetAllocationDto) (r : FinanceRepository)
    (h : IsBudgeted r) (fresh : lookup id r.allocations ≡ none) (amount : ℤ) (b : Budget)
    (found : lookup dto.budget_id r.budgets ≡ some b) where
  allocate_same :
      (k : String)
      → pos 1 ≤ℤ amount
      → amount ≤ℤ b.total_amount -ℤ b.allocated_amount
      → b.id ≡ k
      → BudgetAgrees k
          (some (allocated_budget now amount (with_allocations r b)))
          (sum_by (allocated k) (insert id (new_allocation now id dto amount) r.allocations))
          (sum_by (spent k) r.expenses)
  unfolding allocated_budget new_allocation
  allocate_same k positive fits e = grind (
    int_laws,
    h.budgets dto.budget_id,
    eq_iff dto.budget_id k,
    sum_by-insert_new (allocated k) id (new_allocation now id dto amount) r.allocations fresh,
  )

  allocate_other :
      (k : String)
      → b.id ≢ k
      → (sum_by (allocated k) (insert id (new_allocation now id dto amount) r.allocations)
          ≡ sum_by (allocated k) r.allocations)
        × (sum_by (spent k) r.expenses ≡ sum_by (spent k) r.expenses)
  unfolding new_allocation
  allocate_other k ne = (
    grind (
      int_laws,
      h.budgets dto.budget_id,
      eq_iff dto.budget_id k,
      sum_by-insert_new (allocated k) id (new_allocation now id dto amount) r.allocations fresh,
    ),
    refl,
  )

pub allocate_budget-IsBudgeted :
    (now id : String) (dto : CreateBudgetAllocationDto) (r : FinanceRepository)
    → IsBudgeted r
    → lookup id r.allocations ≡ none
    → IsBudgeted (after (allocate_budget now id dto r))
allocate_budget-IsBudgeted now id dto r h fresh =
    allocate_budget_cases IsBudgeted now id dto r (stored_key r h dto.budget_id) h
      λ amount b found positive fits. record {
        budgets = λ k.
            agrees_update k b.id (allocated_budget now amount (with_allocations r b)) r.budgets _ _
              _ _ (h.budgets k) (allocate_same now id dto r h fresh amount b found k positive fits)
              (allocate_other now id dto r h fresh amount b found k);
        sound = h.sound;
      }

create_budget_atomic :
    (now id : String) (dto : CreateBudgetDto) (r : FinanceRepository) (e : Error)
    → result (create_budget now id dto r) ≡ err e
    → after (create_budget now id dto r) ≡ r
unfolding create_budget
create_budget_atomic now id dto r e failed = ground arith

create_budget_written :
    (now id : String) (dto : CreateBudgetDto) (r : FinanceRepository) (b : Budget)
    → result (create_budget now id dto r) ≡ ok b
    → (b ≡ new_budget now id dto (or_else dto.total_amount (pos 0)))
      × (pos 0 ≤ℤ or_else dto.total_amount (pos 0))
      × (after (create_budget now id dto r) ≡ record r {
        budgets = insert id (new_budget now id dto (or_else dto.total_amount (pos 0))) r.budgets;
      })
unfolding create_budget
create_budget_written now id dto r b done = ground arith

pub create_budget-IsBudgeted :
    (now id : String) (dto : CreateBudgetDto) (r : FinanceRepository)
    → IsBudgeted r
    → lookup id r.budgets ≡ none
    → IsBudgeted (after (create_budget now id dto r))
unfolding new_budget
create_budget-IsBudgeted now id dto r h fresh =
    after-cases IsBudgeted (create_budget now id dto r)
      (λ e failed. rw (create_budget_atomic now id dto r e failed) h)
      (λ b done.
        let (eb, natural, written) = create_budget_written now id dto r b done in
        let new = new_budget now id dto (or_else dto.total_amount (pos 0)) in
        rw written record {
          budgets = λ k.
              agrees_update k id new r.budgets _ _ _ _ (h.budgets k)
                (λ e. grind (int_laws, h.budgets id)) (λ ne. (refl, refl));
          sound = h.sound;
        })
