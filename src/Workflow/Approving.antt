-- ===== src/Workflow/Approving.antt =====
-- The purchase approval workflow when it returns.
use text.Mathlib.TextLemmas.{append-eq-nil_iff}
use autonomous_enterprise.Audit.{AuditStatus}
use autonomous_enterprise.Shared.{
  ap, ◌∙◌, ◌≢◌, ◌<>◌, Bool-cases, eq_iff, arith, ◌≡◌, refl, lookup, insert, lookup-insert_self, inl,
  inr, is_empty, String, ◌++◌, [], ◌∷◌, some, none, false, true, Error, ok, after, result, or_else,
}
use autonomous_enterprise.Shared.Int.{ℤ, pos, ◌≤ℤ◌}
use autonomous_enterprise.Outbox.{OutboxEvent, OutboxStatus, publish}
use autonomous_enterprise.Policy.{auto_approve, evaluate_procurement_policy}
use autonomous_enterprise.Procurement.Types.{PurchaseOrder, PurchaseOrderStatus}
use autonomous_enterprise.Procurement.Repository.{ProcurementRepository}
use autonomous_enterprise.Procurement.Orders.{
  order_with_status, get_purchase_order, approve_purchase_order,
}
use autonomous_enterprise.Finance.Types.{Budget}
use autonomous_enterprise.Finance.Budgets.{check_budget_availability}
use autonomous_enterprise.Finance.Invariant.{IsBudgeted}
use autonomous_enterprise.Finance.Funding.{funded, create_budget_allocation_funds}
use autonomous_enterprise.Workflow.PurchaseApproval.{
  ApprovalState, ProcessPurchaseApprovalDto, PurchaseApprovalResult, key_of, cached, audited,
  allocation_dto, default_auto_approval_threshold, policy_of, compensate, approve_and_allocate,
  act_on, process_new, process_purchase_approval,
}

pub approve_purchase_order_lem :
    (now id : String) (r : ProcurementRepository) (o : PurchaseOrder)
    → lookup id r.purchase_orders ≡ some o
    → o.id ≡ id
    → approve_purchase_order now id r ≡ (
      ok (order_with_status PurchaseOrderStatus.approved now o),
      record r {
        purchase_orders =
            insert id (order_with_status PurchaseOrderStatus.approved now o) r.purchase_orders;
      },
    )
unfolding approve_purchase_order order_with_status
approve_purchase_order_lem now id r o found key = ground arith

abbrev purpose : String
purpose = "Purchase order "

no_text : purpose ≢ ""
no_text e = cc

purpose-named : (id : String) → is_empty ("Purchase order " <> id) ≡ false
purpose-named id = elim (Bool-cases (is_empty ("Purchase order " <> id))) [
  | inl e ↦ elim (no_text ((append-eq-nil_iff.0 ((eq_iff ("Purchase order " <> id) "").0 e)).0)) [ ]
  | inr e ↦ e
]

abbrev approved_event : String → String → PurchaseOrder → OutboxEvent
approved_event now event_id po = record {
  id = event_id;
  aggregate_type = "PurchaseOrder";
  aggregate_id = po.id;
  event_type = "PurchaseOrderApproved";
  status = OutboxStatus.pending;
  created_at = now;
  published_at = "";
}

-- The order is approved, its amount is allocated and the event waits.
pub record IsApproved (now allocation_id event_id : String) (dto : ProcessPurchaseApprovalDto)
    (o : PurchaseOrder) (b : Budget) (s t : ApprovalState) : Type 0 where
  pub order :
      lookup o.id t.procurement.purchase_orders
      ≡ some (order_with_status PurchaseOrderStatus.approved now o)
  pub finance :
      t.finance ≡ funded now allocation_id (allocation_dto dto o) o.total_amount b s.finance
  pub outbox : t.outbox ≡ s.outbox ++ approved_event now event_id o ∷ []

act_on_approves :
    (message : Error → String) (now workflow_id allocation_id event_id : String)
    (dto : ProcessPurchaseApprovalDto) (o : PurchaseOrder) (b : Budget) (s : ApprovalState)
    → IsBudgeted s.finance
    → is_empty dto.budget_id ≡ false
    → lookup o.id s.procurement.purchase_orders ≡ some o
    → lookup dto.budget_id s.finance.budgets ≡ some b
    → pos 1 ≤ℤ o.total_amount
    → check_budget_availability dto.budget_id o.total_amount s.finance ≡ true
    → (result (act_on message now workflow_id allocation_id event_id dto o auto_approve s)
        ≡ ok PurchaseOrderStatus.approved)
      × IsApproved now allocation_id event_id dto o b s
          (after (act_on message now workflow_id allocation_id event_id dto o auto_approve s))
unfolding act_on approve_and_allocate compensate publish order_with_status
act_on_approves message now workflow_id allocation_id event_id dto o b s h named found funds
      positive fits =
    ground (
      arith,
      approve_purchase_order_lem now o.id s.procurement o found refl,
      create_budget_allocation_funds now allocation_id (allocation_dto dto o) s.finance
          o.total_amount b h named (purpose-named o.id) refl positive funds fits,
      lookup-insert_self o.id (order_with_status PurchaseOrderStatus.approved now o)
          s.procurement.purchase_orders,
    )

policy_of_approves :
    (number_text : ℤ → String) (unit : ℤ) (now : String) (dto : ProcessPurchaseApprovalDto)
    (o : PurchaseOrder)
    → o.total_amount ≤ℤ or_else dto.auto_approval_threshold (default_auto_approval_threshold unit)
    → (policy_of number_text unit now dto o true).decision ≡ auto_approve
unfolding policy_of evaluate_procurement_policy
policy_of_approves number_text unit now dto o small = ground arith

-- The state when the decision is acted on.
abbrev pub evaluated : String → ApprovalState → ApprovalState
evaluated workflow_id s =
    audited workflow_id "WORKFLOW_PURCHASE_APPROVAL_POLICY_EVALUATED" AuditStatus.success ""
      (audited workflow_id "WORKFLOW_PURCHASE_APPROVAL_STARTED" AuditStatus.success "" s)

-- The response of an automatic approval.
abbrev pub approved_response :
    (ℤ → String)
    → ℤ
    → String
    → String
    → ProcessPurchaseApprovalDto
    → PurchaseOrder
    → String
    → PurchaseApprovalResult
approved_response number_text unit now workflow_id dto o key = record {
  workflow_id = workflow_id;
  purchase_order_id = o.id;
  budget_id = dto.budget_id;
  policy = policy_of number_text unit now dto o true;
  purchase_order_status = PurchaseOrderStatus.approved;
  idempotency_key = key;
  timestamp = now;
}

-- A request without a stored response, for an order stored under its identifier, of any status,
-- and for a stored budget, is approved when the budgets are in agreement, the order's total is at
-- least one unit and at most the threshold, and the budget has it available: the call returns a
-- response with the status approved, the order is stored as approved, the total is allocated of
-- the budget, and one pending event that says so is appended to the outbox.
pub process_purchase_approval_approves :
    (number_text : ℤ → String) (message : Error → String) (unit : ℤ)
    (now workflow_id allocation_id event_id : String) (dto : ProcessPurchaseApprovalDto)
    (header : String) (s : ApprovalState) (o : PurchaseOrder) (b : Budget)
    → IsBudgeted s.finance
    → cached (key_of dto header) s ≡ none
    → is_empty dto.purchase_order_id ≡ false
    → is_empty dto.budget_id ≡ false
    → lookup dto.purchase_order_id s.procurement.purchase_orders ≡ some o
    → o.id ≡ dto.purchase_order_id
    → lookup dto.budget_id s.finance.budgets ≡ some b
    → pos 1 ≤ℤ o.total_amount
    → o.total_amount ≤ℤ or_else dto.auto_approval_threshold (default_auto_approval_threshold unit)
    → check_budget_availability dto.budget_id o.total_amount s.finance ≡ true
    → let p =
        process_purchase_approval number_text message unit now workflow_id allocation_id event_id
          dto header s in
      (result p ≡ ok (approved_response number_text unit now workflow_id dto o (key_of dto header)))
      × IsApproved now allocation_id event_id dto o b s (after p)
unfolding process_purchase_approval process_new get_purchase_order
process_purchase_approval_approves number_text message unit now workflow_id allocation_id event_id
      dto header s o b h new order_named budget_named found key funds positive small fits =
    ground (
      arith,
      policy_of_approves number_text unit now dto o small,
      act_on_approves message now workflow_id allocation_id event_id dto o b
          (evaluated workflow_id s) h budget_named
          (ap (λ k. lookup k s.procurement.purchase_orders) key ∙ found) funds positive fits,
    )
