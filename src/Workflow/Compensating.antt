-- ===== src/Workflow/Compensating.antt =====
-- The purchase approval workflow when it throws.
use autonomous_enterprise.Shared.{
  sym, ◌⊎◌, ap, ◌∙◌, arith, ◌≡◌, refl, lookup, insert, lookup-insert_self, Option-cases, inl, inr,
  String, some, Error, ok, err, after, result,
}
use autonomous_enterprise.Shared.Int.{ℤ}
use autonomous_enterprise.Outbox.{publish}
use autonomous_enterprise.Policy.{PolicyDecision}
use autonomous_enterprise.Procurement.Types.{PurchaseOrder, PurchaseOrderStatus}
use autonomous_enterprise.Procurement.Repository.{ProcurementRepository}
use autonomous_enterprise.Procurement.Orders.{
  order_with_status, get_purchase_order, revert_purchase_order_to_draft,
}
use autonomous_enterprise.Finance.Budgets.{check_budget_availability}
use autonomous_enterprise.Finance.Invariant.{IsBudgeted}
use autonomous_enterprise.Finance.Funding.{create_budget_allocation_atomic}
use autonomous_enterprise.Workflow.Approving.{approve_purchase_order_lem, evaluated}
use autonomous_enterprise.Workflow.PurchaseApproval.{
  ApprovalState, ProcessPurchaseApprovalDto, key_of, cached, allocation_dto, policy_of, compensate,
  approve_and_allocate, act_on, process_new, process_purchase_approval,
}

revert_purchase_order_to_draft_lem :
    (now id : String) (r : ProcurementRepository) (o : PurchaseOrder)
    → lookup id r.purchase_orders ≡ some o
    → o.id ≡ id
    → revert_purchase_order_to_draft now id r ≡ (
      ok (order_with_status PurchaseOrderStatus.draft now o),
      record r {
        purchase_orders =
            insert id (order_with_status PurchaseOrderStatus.draft now o) r.purchase_orders;
      },
    )
unfolding revert_purchase_order_to_draft order_with_status
revert_purchase_order_to_draft_lem now id r o found key = ground arith

-- The order `id` is as before the call or back in draft; nothing else has changed but the audit log.
pub record IsCompensated (now id : String) (s t : ApprovalState) : Type 0 where
  pub order :
      (t.procurement ≡ s.procurement)
      ⊎ ((o : PurchaseOrder) × (lookup id s.procurement.purchase_orders ≡ some o)
          × (lookup id t.procurement.purchase_orders
              ≡ some (order_with_status PurchaseOrderStatus.draft now o)))
  pub finance : t.finance ≡ s.finance
  pub outbox : t.outbox ≡ s.outbox
  pub idempotency_store : t.idempotency_store ≡ s.idempotency_store

act_on_throws :
    (message : Error → String) (now workflow_id allocation_id event_id : String)
    (dto : ProcessPurchaseApprovalDto) (o : PurchaseOrder) (decision : PolicyDecision)
    (s : ApprovalState) (e : Error)
    → IsBudgeted s.finance
    → lookup o.id s.procurement.purchase_orders ≡ some o
    → result (act_on message now workflow_id allocation_id event_id dto o decision s) ≡ err e
    → IsCompensated now o.id s
        (after (act_on message now workflow_id allocation_id event_id dto o decision s))
unfolding act_on approve_and_allocate compensate publish order_with_status
act_on_throws message now workflow_id allocation_id event_id dto o decision s e h found failed =
    let approved : PurchaseOrder = order_with_status PurchaseOrderStatus.approved now o in
    let orders = insert o.id approved s.procurement.purchase_orders in
    grind (
      arith,
      approve_purchase_order_lem now o.id s.procurement o found refl,
      revert_purchase_order_to_draft_lem now o.id
          (record s.procurement { purchase_orders = orders }) approved
          (lookup-insert_self o.id approved s.procurement.purchase_orders) refl,
      lookup-insert_self o.id (order_with_status PurchaseOrderStatus.draft now o) orders,
      create_budget_allocation_atomic now allocation_id (allocation_dto dto o) s.finance,
    )

act_on-evaluated_throws :
    (message : Error → String) (now workflow_id allocation_id event_id id : String)
    (dto : ProcessPurchaseApprovalDto) (o : PurchaseOrder) (decision : PolicyDecision)
    (s : ApprovalState) (e : Error)
    → IsBudgeted s.finance
    → lookup id s.procurement.purchase_orders ≡ some o
    → o.id ≡ id
    → let p =
        act_on message now workflow_id allocation_id event_id dto o decision
          (evaluated workflow_id s) in
      result p ≡ err e → IsCompensated now id s (after p)
act_on-evaluated_throws message now workflow_id allocation_id event_id id dto o decision s e h found
      key failed =
    let c =
      act_on_throws message now workflow_id allocation_id event_id dto o decision
        (evaluated workflow_id s) e h (ap (λ k. lookup k s.procurement.purchase_orders) key ∙ found)
        failed in
    record {
      order = rw (sym key) c.order;
      finance = c.finance;
      outbox = c.outbox;
      idempotency_store = c.idempotency_store;
    }

-- When a call throws, while the budgets are in agreement and the order, if there is one, is
-- stored under its identifier, then finance, outbox and stored responses are unchanged, and
-- procurement is unchanged or the order is back in draft, whatever its status was.
pub process_purchase_approval_throws :
    (number_text : ℤ → String) (message : Error → String) (unit : ℤ)
    (now workflow_id allocation_id event_id : String) (dto : ProcessPurchaseApprovalDto)
    (header : String) (s : ApprovalState) (e : Error)
    → IsBudgeted s.finance
    → ((o : PurchaseOrder)
        → lookup dto.purchase_order_id s.procurement.purchase_orders ≡ some o
        → o.id ≡ dto.purchase_order_id)
    → let p =
        process_purchase_approval number_text message unit now workflow_id allocation_id event_id
          dto header s in
      result p ≡ err e → IsCompensated now dto.purchase_order_id s (after p)
unfolding process_purchase_approval process_new get_purchase_order
process_purchase_approval_throws number_text message unit now workflow_id allocation_id event_id dto
      header s e h keyed failed =
    elim (Option-cases (cached (key_of dto header) s)) [
      | inr (x, old) ↦ ground arith
      | inl new ↦ elim (Option-cases (lookup dto.purchase_order_id s.procurement.purchase_orders)) [
        | inl unknown ↦ ground arith
        | inr (o, found) ↦ ground (
          arith,
          act_on-evaluated_throws message now workflow_id allocation_id event_id
              dto.purchase_order_id dto o
              (policy_of number_text unit now dto o
                (check_budget_availability dto.budget_id o.total_amount s.finance)).decision
              s e h found (keyed o found),
        )
      ]
    ]
