-- ===== src/Workflow/Examples.antt =====
-- Runs of the purchase approval workflow on one budget and two orders.
use autonomous_enterprise.Shared.{
  arith, ◌≡◌, refl, lookup, insert, after, result, ok, err, Error, bad_request, String, some, none,
  [], ◌∷◌,
}
use autonomous_enterprise.Shared.Int.{ℤ, pos, ◌-ℤ◌, ◌*ℤ◌}
use autonomous_enterprise.Outbox.{publish}
use autonomous_enterprise.Policy.{evaluate_procurement_policy}
use autonomous_enterprise.Procurement.Types.{PurchaseOrder, PurchaseOrderStatus}
use autonomous_enterprise.Procurement.Repository.{ProcurementRepository}
use autonomous_enterprise.Procurement.Orders.{
  get_purchase_order, approve_purchase_order, revert_purchase_order_to_draft,
}
use autonomous_enterprise.Finance.Types.{Budget, CreateBudgetDto}
use autonomous_enterprise.Finance.Repository.{FinanceRepository}
use autonomous_enterprise.Finance.Budgets.{create_budget, new_budget, create_budget_allocation}
use autonomous_enterprise.Finance.Invariant.{IsBudgeted}
use autonomous_enterprise.Finance.Traces.{
  empty_finance, creates_budget, start, next, Reach-IsBudgeted,
}
use autonomous_enterprise.Workflow.PurchaseApproval.{
  ApprovalState, ProcessPurchaseApprovalDto, PurchaseApprovalResult, process_purchase_approval,
  default_auto_approval_threshold,
}
use autonomous_enterprise.Workflow.Repeating.{
  process_purchase_approval-again, process_purchase_approval-IsBudgeted,
}
use autonomous_enterprise.Workflow.Approving.{
  IsApproved, approved_response, process_purchase_approval_approves,
}
use autonomous_enterprise.Workflow.Compensating.{IsCompensated, process_purchase_approval_throws}

abbrev number_text : ℤ → String
number_text n = ""

abbrev message : Error → String
message e = "failed"

abbrev budget : CreateBudgetDto
budget = record {
  name = "Tools";
  total_amount = some (pos 100);
  period = "2026";
  cost_center_id = "";
}

abbrev tools : Budget
tools = new_budget "t1" "b" budget (pos 100)

abbrev anvils : PurchaseOrder
anvils = record {
  id = "o";
  supplier_id = "s";
  purchase_request_id = "";
  order_number = "PO-1";
  status = PurchaseOrderStatus.draft;
  total_amount = pos 60;
  idempotency_key = "";
  items = [];
  created_at = "t1";
  updated_at = "t1";
}

abbrev gifts : PurchaseOrder
gifts = record anvils { id = "z"; status = PurchaseOrderStatus.received; total_amount = pos 0 }

abbrev orders : ProcurementRepository
orders = record {
  suppliers = [];
  purchase_requests = [];
  purchase_orders = ("o", anvils) ∷ ("z", gifts) ∷ [];
  supplier_quotations = [];
  goods_receipts = [];
}

abbrev funds : FinanceRepository
funds = after (create_budget "t1" "b" budget empty_finance)

abbrev ready : ApprovalState
ready = record {
  procurement = orders;
  finance = funds;
  audit = [];
  outbox = [];
  idempotency_store = [];
}

abbrev request : ProcessPurchaseApprovalDto
request = record {
  purchase_order_id = "o";
  budget_id = "b";
  auto_approval_threshold = none;
  idempotency_key = "k";
}

abbrev gift_request : ProcessPurchaseApprovalDto
gift_request = record request { purchase_order_id = "z" }

abbrev done : ApprovalState
done =
    after (process_purchase_approval number_text message (pos 1) "t2" "w" "a" "e" request "" ready)

abbrev response : PurchaseApprovalResult
response = approved_response number_text (pos 1) "t2" "w" request anvils "k"

funds-IsBudgeted : IsBudgeted funds
unfolding empty_finance create_budget new_budget lookup
funds-IsBudgeted = Reach-IsBudgeted (next start (creates_budget "t1" "b" budget refl))

request_runs :
    process_purchase_approval number_text message (pos 1) "t2" "w" "a" "e" request "" ready
    ≡ (ok response, done)
unfolding empty_finance process_purchase_approval lookup get_purchase_order
    evaluate_procurement_policy create_budget insert ◌-ℤ◌ ◌*ℤ◌ approve_purchase_order
    create_budget_allocation publish
request_runs = refl

process_purchase_approval-again_example :
    process_purchase_approval number_text message (pos 1) "t3" "w2" "a2" "e2" gift_request "" done
    ≡ (ok response, done)
process_purchase_approval-again_example =
    process_purchase_approval-again number_text message (pos 1) "t2" "w" "a" "e" "t3" "w2" "a2" "e2"
      request gift_request "" "" ready done response refl refl request_runs

funds-fresh : lookup "a" funds.allocations ≡ none
unfolding empty_finance lookup create_budget
funds-fresh = refl

process_purchase_approval-IsBudgeted_example : IsBudgeted done.finance
process_purchase_approval-IsBudgeted_example =
    process_purchase_approval-IsBudgeted number_text message (pos 1) "t2" "w" "a" "e" request ""
      ready funds-IsBudgeted funds-fresh

process_purchase_approval_approves_example :
    (result
        (process_purchase_approval number_text message (pos 1) "t2" "w" "a" "e" request "" ready)
      ≡ ok response)
    × IsApproved "t2" "a" "e" request anvils tools ready done
unfolding empty_finance lookup create_budget insert default_auto_approval_threshold ◌*ℤ◌ ◌-ℤ◌
process_purchase_approval_approves_example =
    process_purchase_approval_approves number_text message (pos 1) "t2" "w" "a" "e" request "" ready
      anvils tools funds-IsBudgeted refl refl refl refl refl refl (omega arith) (omega arith) refl

gift_keyed : (o : PurchaseOrder) → lookup "z" orders.purchase_orders ≡ some o → o.id ≡ "z"
unfolding lookup
gift_keyed o found = cc

gift_fails :
    result
      (process_purchase_approval number_text message (pos 1) "t2" "w" "a" "e" gift_request "" ready)
    ≡ err (bad_request "Budget allocation failed; purchase order reverted to DRAFT")
unfolding empty_finance process_purchase_approval lookup get_purchase_order
    evaluate_procurement_policy create_budget insert ◌-ℤ◌ ◌*ℤ◌ approve_purchase_order
    create_budget_allocation revert_purchase_order_to_draft
gift_fails = refl

process_purchase_approval_throws_example : IsCompensated "t2" "z" ready (
    after (
      process_purchase_approval number_text message (pos 1) "t2" "w" "a" "e" gift_request "" ready))
process_purchase_approval_throws_example =
    process_purchase_approval_throws number_text message (pos 1) "t2" "w" "a" "e" gift_request ""
      ready (bad_request "Budget allocation failed; purchase order reverted to DRAFT")
      funds-IsBudgeted gift_keyed gift_fails
