-- ===== src/Workflow/Repeating.antt =====
-- The purchase approval workflow called again, and the budgets that it keeps.
use autonomous_enterprise.Shared.{
  arith, ◌≡◌, lookup, lookup-insert_self, Option-cases, inl, inr, is_empty, String, some, none,
  false, Error, ok, after,
}
use autonomous_enterprise.Shared.Int.{ℤ}
use autonomous_enterprise.Outbox.{publish}
use autonomous_enterprise.Policy.{PolicyDecision}
use autonomous_enterprise.Procurement.Types.{PurchaseOrder}
use autonomous_enterprise.Procurement.Orders.{get_purchase_order}
use autonomous_enterprise.Finance.Invariant.{IsBudgeted}
use autonomous_enterprise.Finance.Funding.{create_budget_allocation-IsBudgeted}
use autonomous_enterprise.Workflow.PurchaseApproval.{
  ApprovalState, ProcessPurchaseApprovalDto, PurchaseApprovalResult, key_of, cached, allocation_dto,
  compensate, approve_and_allocate, act_on, process_new, process_purchase_approval,
}

-- A response is stored under the key of its call.
process_new-cached :
    (number_text : ℤ → String) (message : Error → String) (unit : ℤ)
    (now workflow_id allocation_id event_id : String) (dto : ProcessPurchaseApprovalDto)
    (key : String) (s t : ApprovalState) (response : PurchaseApprovalResult)
    → is_empty key ≡ false
    → process_new number_text message unit now workflow_id allocation_id event_id dto key s
      ≡ (ok response, t)
    → cached key t ≡ some response
unfolding process_new
process_new-cached number_text message unit now workflow_id allocation_id event_id dto key s t
      response keyed done =
    grind (arith, lookup-insert_self)

act_on-IsBudgeted :
    (message : Error → String) (now workflow_id allocation_id event_id : String)
    (dto : ProcessPurchaseApprovalDto) (po : PurchaseOrder) (decision : PolicyDecision)
    (s : ApprovalState)
    → IsBudgeted s.finance
    → lookup allocation_id s.finance.allocations ≡ none
    → IsBudgeted
        (after (act_on message now workflow_id allocation_id event_id dto po decision s)).finance
unfolding act_on approve_and_allocate compensate publish
act_on-IsBudgeted message now workflow_id allocation_id event_id dto po decision s h fresh =
    ground (
      arith,
      create_budget_allocation-IsBudgeted now allocation_id (allocation_dto dto po) s.finance h
          fresh,
    )

-- Once a call with a non-empty idempotency key has returned a response, a next call with the key
-- returns the same response and changes nothing, whatever else it asks.
pub process_purchase_approval-again :
    (number_text : ℤ → String) (message : Error → String) (unit : ℤ)
    (now workflow_id allocation_id event_id later wid aid eid : String)
    (dto dto' : ProcessPurchaseApprovalDto) (header header' : String) (s t : ApprovalState)
    (response : PurchaseApprovalResult)
    → is_empty (key_of dto header) ≡ false
    → key_of dto' header' ≡ key_of dto header
    → process_purchase_approval number_text message unit now workflow_id allocation_id event_id dto
        header s
      ≡ (ok response, t)
    → process_purchase_approval number_text message unit later wid aid eid dto' header' t
      ≡ (ok response, t)
unfolding process_purchase_approval
process_purchase_approval-again number_text message unit now workflow_id allocation_id event_id
      later wid aid eid dto dto' header header' s t response keyed same done =
    elim (Option-cases (lookup (key_of dto header) s.idempotency_store)) [
      | inl new ↦ ground (
        arith,
        process_new-cached number_text message unit now workflow_id allocation_id event_id dto
            (key_of dto header) s t response keyed,
      )
      | inr (x, old) ↦ ground arith
    ]

process_new-IsBudgeted :
    (number_text : ℤ → String) (message : Error → String) (unit : ℤ)
    (now workflow_id allocation_id event_id : String) (dto : ProcessPurchaseApprovalDto)
    (key : String) (s : ApprovalState)
    → IsBudgeted s.finance
    → lookup allocation_id s.finance.allocations ≡ none
    → IsBudgeted
        (after (
          process_new number_text message unit now workflow_id allocation_id event_id dto key
            s)).finance
unfolding process_new get_purchase_order
process_new-IsBudgeted number_text message unit now workflow_id allocation_id event_id dto key s h
      fresh =
    grind (arith, act_on-IsBudgeted)

-- The workflow keeps the budgets in agreement, on every branch and when it throws: each budget's
-- allocated amount stays the sum of its allocations, its spent amount the sum of its approved
-- expenses, and neither exceeds the total. The identifier of a new allocation is not in use.
pub process_purchase_approval-IsBudgeted :
    (number_text : ℤ → String) (message : Error → String) (unit : ℤ)
    (now workflow_id allocation_id event_id : String) (dto : ProcessPurchaseApprovalDto)
    (header : String) (s : ApprovalState)
    → IsBudgeted s.finance
    → lookup allocation_id s.finance.allocations ≡ none
    → IsBudgeted
        (after (
          process_purchase_approval number_text message unit now workflow_id allocation_id event_id
            dto header s)).finance
unfolding process_purchase_approval
process_purchase_approval-IsBudgeted number_text message unit now workflow_id allocation_id event_id
      dto header s h fresh =
    ground (
      arith,
      process_new-IsBudgeted number_text message unit now workflow_id allocation_id event_id dto
          (key_of dto header) s h fresh,
    )
