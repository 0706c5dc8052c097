-- ===== src/Workflow/PurchaseApproval.antt =====
-- apps/api/src/modules/workflow/purchase-approval.service.ts: the class PurchaseApprovalService over
-- the procurement and the finance repository, the audit log and the outbox. `now` is the clock's
-- text; `workflow_id`, `allocation_id` and `event_id` are texts that `Date.now()`, `Math.random()` and
-- `randomUUID()` make up; `number_text` prints a number, `message` is an exception's message; `unit`
-- is one unit of money in the smallest units that amounts count. An absent text is the empty text.
-- The request id of a response is left out.
use autonomous_enterprise.Shared.{
  Action, Result, Error, ok, err, ⊤, bad_request, pure, throw, gets, throw_if, modify, on_part,
  attempt, or_existing, ◌>>=◌, ◌>>◌, is_empty, or_text, or_else, String, ◌<>◌, Bool, true, Option,
  none, some, List, Store, lookup, insert, if◌then◌else◌,
}
use autonomous_enterprise.Shared.Int.{ℤ, pos, ◌*ℤ◌}
use autonomous_enterprise.Audit.{AuditRecord, AuditStatus, log_audit}
use autonomous_enterprise.Outbox.{OutboxEvent, publish}
use autonomous_enterprise.Policy.{
  PolicyDecision, PolicyEvaluationResult, auto_approve, require_human_approval, reject,
  evaluate_procurement_policy,
}
use autonomous_enterprise.Procurement.Types.{PurchaseOrder, PurchaseOrderStatus}
use autonomous_enterprise.Procurement.Repository.{ProcurementRepository}
use autonomous_enterprise.Procurement.Orders.{
  get_purchase_order, approve_purchase_order, revert_purchase_order_to_draft,
}
use autonomous_enterprise.Finance.Types.{CreateBudgetAllocationDto}
use autonomous_enterprise.Finance.Repository.{FinanceRepository}
use autonomous_enterprise.Finance.Budgets.{check_budget_availability, create_budget_allocation}

pub record ProcessPurchaseApprovalDto : Type 0 where
  pub purchase_order_id : String
  pub budget_id : String
  pub auto_approval_threshold : Option ℤ
  pub idempotency_key : String

pub record PurchaseApprovalResult : Type 0 where
  pub workflow_id : String
  pub purchase_order_id : String
  pub budget_id : String
  pub policy : PolicyEvaluationResult
  pub purchase_order_status : PurchaseOrderStatus
  pub idempotency_key : String
  pub timestamp : String

-- What the service and the services that it calls keep.
pub record ApprovalState : Type 0 where
  pub procurement : ProcurementRepository
  pub finance : FinanceRepository
  pub audit : List AuditRecord
  pub outbox : List OutboxEvent
  pub idempotency_store : Store PurchaseApprovalResult

abbrev Approval : Type 0 → Type 0
Approval A = Action ApprovalState A

module _ {A : Type 0} where
  abbrev in_procurement : Action ProcurementRepository A → Approval A
  in_procurement a = on_part (λ s. s.procurement) (λ p s. record s { procurement = p }) a

  abbrev in_finance : Action FinanceRepository A → Approval A
  in_finance a = on_part (λ s. s.finance) (λ f s. record s { finance = f }) a

  abbrev in_outbox : Action (List OutboxEvent) A → Approval A
  in_outbox a = on_part (λ s. s.outbox) (λ o s. record s { outbox = o }) a

abbrev pub audited : String → String → AuditStatus → String → ApprovalState → ApprovalState
audited workflow_id action status reasoning s =
    let entry : AuditRecord = record {
      workflow_id = workflow_id;
      action = action;
      status = status;
      reasoning = reasoning;
    } in
    record s { audit = log_audit entry s.audit }

abbrev pub key_of : ProcessPurchaseApprovalDto → String → String
key_of dto header = or_text header dto.idempotency_key

-- The response under the key, if there is a key.
abbrev pub cached : String → ApprovalState → Option PurchaseApprovalResult
cached key s = if is_empty key then none else lookup key s.idempotency_store

abbrev remember : String → PurchaseApprovalResult → ApprovalState → ApprovalState
remember key response s =
    if is_empty key
    then s
    else record s { idempotency_store = insert key response s.idempotency_store }

unfoldable pub default_auto_approval_threshold : ℤ → ℤ
default_auto_approval_threshold unit = pos 5000000 *ℤ unit

-- The evaluation of the order against the policy.
unfoldable pub policy_of :
    (ℤ → String)
    → ℤ
    → String
    → ProcessPurchaseApprovalDto
    → PurchaseOrder
    → Bool
    → PolicyEvaluationResult
unfolding default_auto_approval_threshold
policy_of number_text unit now dto po sufficient =
    evaluate_procurement_policy number_text now (record {
      amount = po.total_amount;
      supplier_verified = true;
      budget_available = sufficient;
      auto_approval_threshold =
          or_else dto.auto_approval_threshold (default_auto_approval_threshold unit);
    })

abbrev pub allocation_dto : ProcessPurchaseApprovalDto → PurchaseOrder → CreateBudgetAllocationDto
allocation_dto dto po = record {
  budget_id = dto.budget_id;
  amount = some po.total_amount;
  purpose = "Purchase order " <> po.id;
}

-- The handler of an exception of the allocation.
unfoldable pub compensate :
    {A : Type 0} → (Error → String) → String → String → PurchaseOrder → Result A → Approval ⊤
compensate message now workflow_id po (ok a) = pure tt
compensate message now workflow_id po (err e) = do
  in_procurement (revert_purchase_order_to_draft now po.id)
  modify
      (audited workflow_id "WORKFLOW_PURCHASE_APPROVAL_COMPENSATED" AuditStatus.failure (message e))
  throw (bad_request "Budget allocation failed; purchase order reverted to DRAFT")

-- The branch of an automatic approval, up to the event.
unfoldable pub approve_and_allocate :
    (Error → String)
    → String
    → String
    → String
    → ProcessPurchaseApprovalDto
    → PurchaseOrder
    → Approval PurchaseOrderStatus
unfolding compensate
approve_and_allocate message now workflow_id allocation_id dto po = do
  updated ← in_procurement (approve_purchase_order now po.id)
  allocation ←
      attempt (in_finance (create_budget_allocation now allocation_id (allocation_dto dto po)))
  compensate message now workflow_id po allocation
  pure updated.status

-- The branches on the decision: the status of the order afterwards.
unfoldable pub act_on :
    (Error → String)
    → String
    → String
    → String
    → String
    → ProcessPurchaseApprovalDto
    → PurchaseOrder
    → PolicyDecision
    → Approval PurchaseOrderStatus
unfolding approve_and_allocate
act_on message now workflow_id allocation_id event_id dto po auto_approve = do
  status ← approve_and_allocate message now workflow_id allocation_id dto po
  in_outbox (publish now event_id "PurchaseOrder" po.id "PurchaseOrderApproved")
  pure status
act_on message now workflow_id allocation_id event_id dto po require_human_approval = do
  in_outbox (publish now event_id "PurchaseOrder" po.id "PurchaseApprovalEscalated")
  pure po.status
act_on message now workflow_id allocation_id event_id dto po reject = pure po.status

-- `processPurchaseApproval` once no response is stored under the key.
unfoldable pub process_new :
    (ℤ → String)
    → (Error → String)
    → ℤ
    → String
    → String
    → String
    → String
    → ProcessPurchaseApprovalDto
    → String
    → Approval PurchaseApprovalResult
unfolding policy_of act_on
process_new number_text message unit now workflow_id allocation_id event_id dto key = do
  throw_if (is_empty dto.purchase_order_id) (bad_request "purchaseOrderId is required")
  throw_if (is_empty dto.budget_id) (bad_request "budgetId is required")
  modify (audited workflow_id "WORKFLOW_PURCHASE_APPROVAL_STARTED" AuditStatus.success "")
  po ← in_procurement (get_purchase_order dto.purchase_order_id)
  sufficient ← gets (λ s. check_budget_availability dto.budget_id po.total_amount s.finance)
  let policy = policy_of number_text unit now dto po sufficient
  modify (audited workflow_id "WORKFLOW_PURCHASE_APPROVAL_POLICY_EVALUATED" AuditStatus.success "")
  status ← act_on message now workflow_id allocation_id event_id dto po policy.decision
  let response : PurchaseApprovalResult = record {
    workflow_id = workflow_id;
    purchase_order_id = po.id;
    budget_id = dto.budget_id;
    policy = policy;
    purchase_order_status = status;
    idempotency_key = key;
    timestamp = now;
  }
  modify (remember key response)
  pure response

unfoldable pub process_purchase_approval :
    (ℤ → String)
    → (Error → String)
    → ℤ
    → String
    → String
    → String
    → String
    → ProcessPurchaseApprovalDto
    → String
    → Approval PurchaseApprovalResult
unfolding process_new
process_purchase_approval number_text message unit now workflow_id allocation_id event_id dto
      header =
    do
      let key = key_of dto header
      existing ← gets (cached key)
      or_existing existing
          (process_new number_text message unit now workflow_id allocation_id event_id dto key)
