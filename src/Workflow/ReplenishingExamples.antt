-- ===== src/Workflow/ReplenishingExamples.antt =====
-- Runs of the replenishment service on an inventory where one product has two reorder rules.
use autonomous_enterprise.Shared.{
  arith, ◌≡◌, refl, after, result, ok, String, ℕ, zero, suc, List, [], ◌∷◌, ◌<>◌, length,
}
use autonomous_enterprise.Shared.Int.{ℤ, pos}
use autonomous_enterprise.Inventory.Types.{ReorderRule}
use autonomous_enterprise.Inventory.Repository.{InventoryRepository}
use autonomous_enterprise.Procurement.Repository.{ProcurementRepository}
use autonomous_enterprise.Workflow.Replenishment.{
  ReplenishmentState, check_and_trigger_replenishment, evaluate_and_trigger_replenishment,
}
use autonomous_enterprise.Workflow.Replenishing.{
  Announces, announced_all, request_event, check_and_trigger_replenishment-Announces,
  evaluate_and_trigger_replenishment-Announces,
}

abbrev number_text : ℤ → String
number_text n = ""

abbrev text_of : ℕ → String
text_of zero = "0"
text_of (suc n) = "1" <> text_of n

abbrev text_of_two : ℕ → ℕ → String
text_of_two m n = text_of m <> "-" <> text_of n

abbrev rule_of : String → ℤ → ReorderRule
rule_of id minimum = record {
  id = id;
  warehouse_id = "w";
  product_id = "p";
  min_quantity = minimum;
  reorder_quantity = pos 20;
  created_at = "t";
  updated_at = "t";
}

abbrev two_rules : InventoryRepository
two_rules = record {
  products = [];
  warehouses = [];
  stock_map = [];
  movements = [];
  reservations = [];
  reorder_rules = ("r1", rule_of "r1" (pos 5)) ∷ ("r2", rule_of "r2" (pos 8)) ∷ [];
}

abbrev no_orders : ProcurementRepository
no_orders = record {
  suppliers = [];
  purchase_requests = [];
  purchase_orders = [];
  supplier_quotations = [];
  goods_receipts = [];
}

abbrev understocked : ReplenishmentState
understocked = record { inventory = two_rules; procurement = no_orders; audit = []; outbox = [] }

check_and_trigger_replenishment-Announces_example :
    Announces understocked
      (request_event number_text "t" text_of text_of zero
        ∷ request_event number_text "t" text_of text_of 1
        ∷ [])
      (check_and_trigger_replenishment number_text "t" text_of text_of "w" "p" "" understocked)
unfolding autonomous_enterprise.Inventory.Repository.is_selected autonomous_enterprise.Shared.values
    autonomous_enterprise.Shared.lookup
check_and_trigger_replenishment-Announces_example =
    check_and_trigger_replenishment-Announces number_text "t" text_of text_of "w" "p" understocked
      refl (ground arith)

evaluate_and_trigger_replenishment-Announces_example :
    Announces understocked
      (announced_all number_text "t" text_of_two text_of_two "w" zero two_rules
        (rule_of "r1" (pos 5) ∷ rule_of "r2" (pos 8) ∷ []))
      (evaluate_and_trigger_replenishment number_text "t" text_of_two text_of_two "w" ""
        understocked)
unfolding autonomous_enterprise.Inventory.Repository.is_selected autonomous_enterprise.Shared.values
evaluate_and_trigger_replenishment-Announces_example =
    evaluate_and_trigger_replenishment-Announces number_text "t" text_of_two text_of_two "w"
      understocked (ground arith)

-- Two rules of one product make four requests.
requests_made :
    length
      (after (
        evaluate_and_trigger_replenishment number_text "t" text_of_two text_of_two "w" ""
          understocked)).procurement.purchase_requests
    ≡ 4
unfolding evaluate_and_trigger_replenishment
    autonomous_enterprise.Inventory.Catalogue.list_reorder_rules autonomous_enterprise.Shared.values
    autonomous_enterprise.Inventory.Repository.is_selected check_and_trigger_replenishment
    autonomous_enterprise.Inventory.Stocks.check_availability autonomous_enterprise.Shared.lookup
    autonomous_enterprise.Procurement.Requests.create_purchase_request
    autonomous_enterprise.Outbox.publish autonomous_enterprise.Shared.insert
requests_made = refl
