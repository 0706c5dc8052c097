-- ===== src/Workflow/Replenishment.antt =====
-- apps/api/src/modules/workflow/replenishment.service.ts: the class ReplenishmentService over the
-- repositories of inventory and procurement, the audit log and the outbox. `now` is the clock's
-- text; `request_id` and `event_id` are the texts that `Date.now()` and `Math.random()` make up, by
-- the position in the loop; `number_text` prints a number. An absent text is the empty text.
use autonomous_enterprise.Shared.{
  Action, pure, modify, on_part, ◌>>=◌, ◌>>◌, is_empty, or_text, ⊤, String, ◌<>◌, Bool,
  if◌then◌else◌, some, List, [], ◌∷◌, ℕ, zero, suc,
}
use autonomous_enterprise.Shared.Int.{ℤ, pos, ltb_ℤ}
use autonomous_enterprise.Audit.{AuditRecord, AuditStatus, log_audit}
use autonomous_enterprise.Outbox.{OutboxEvent, publish}
use autonomous_enterprise.Inventory.Types.{ReorderRule}
use autonomous_enterprise.Inventory.Repository.{InventoryRepository}
use autonomous_enterprise.Inventory.Catalogue.{list_reorder_rules}
use autonomous_enterprise.Inventory.Stocks.{check_availability}
use autonomous_enterprise.Procurement.Types.{CreatePurchaseRequestDto}
use autonomous_enterprise.Procurement.Repository.{ProcurementRepository}
use autonomous_enterprise.Procurement.Requests.{create_purchase_request}

-- What the services that it calls keep.
pub record ReplenishmentState : Type 0 where
  pub inventory : InventoryRepository
  pub procurement : ProcurementRepository
  pub audit : List AuditRecord
  pub outbox : List OutboxEvent

abbrev Replenishment : Type 0 → Type 0
Replenishment A = Action ReplenishmentState A

module _ {A : Type 0} where
  abbrev in_inventory : Action InventoryRepository A → Replenishment A
  in_inventory a = on_part (λ s. s.inventory) (λ p s. record s { inventory = p }) a

  abbrev in_procurement : Action ProcurementRepository A → Replenishment A
  in_procurement a = on_part (λ s. s.procurement) (λ p s. record s { procurement = p }) a

  abbrev in_outbox : Action (List OutboxEvent) A → Replenishment A
  in_outbox a = on_part (λ s. s.outbox) (λ p s. record s { outbox = p }) a

-- `availableQuantity < rule.minQuantity`
abbrev pub is_below : ℤ → ReorderRule → Bool
is_below available rule = ltb_ℤ available rule.min_quantity

module _ (number_text : ℤ → String) (now : String) where
  abbrev pub replenishment_request : String → String → ℤ → ReorderRule → CreatePurchaseRequestDto
  replenishment_request warehouse_id product_id available rule = record {
    requested_by = "AI_INVENTORY_AGENT";
    product_id = product_id;
    quantity = some rule.reorder_quantity;
    reason =
        "Automated replenishment: available quantity ["
        <> number_text available
        <> "] below minimum ["
        <> number_text rule.min_quantity
        <> "] for warehouse ["
        <> warehouse_id
        <> "]";
  }

  abbrev replenishment_record : ℤ → ReorderRule → AuditRecord
  replenishment_record available rule = record {
    workflow_id = "";
    action = "REPLENISHMENT_TRIGGERED";
    status = AuditStatus.success;
    reasoning =
        "Stock level "
        <> number_text available
        <> " below threshold "
        <> number_text rule.min_quantity;
  }

  -- One rule that the available quantity is below.
  unfoldable pub replenish : String → String → String → String → ℤ → ReorderRule → Replenishment ⊤
  replenish request_id event_id warehouse_id product_id available rule = do
    q ← in_procurement (
        create_purchase_request now request_id
          (replenishment_request warehouse_id product_id available rule))
    in_outbox (publish now event_id "PurchaseRequest" q.id "PurchaseRequestCreated")
    modify (λ s. record s { audit = log_audit (replenishment_record available rule) s.audit })

  -- The loop over the rules.
  unfoldable pub replenish_all :
      (ℕ → String) → (ℕ → String) → ℕ → String → String → ℤ → List ReorderRule → Replenishment ⊤
  unfolding replenish
  replenish_all request_id event_id n warehouse_id product_id available [] = pure tt
  replenish_all request_id event_id n warehouse_id product_id available (rule ∷ rules) =
      let rest : Replenishment ⊤ =
        replenish_all request_id event_id (suc n) warehouse_id product_id available rules in
      if is_below available rule
      then replenish (request_id n) (event_id n) warehouse_id product_id available rule >> rest
      else rest

  -- The rest once the rules are read.
  unfoldable pub check_rules :
      (ℕ → String) → (ℕ → String) → String → String → List ReorderRule → Replenishment ⊤
  unfolding replenish_all
  check_rules request_id event_id warehouse_id product_id [] = pure tt
  check_rules request_id event_id warehouse_id product_id (r ∷ rs) = do
    availability ← in_inventory (check_availability warehouse_id product_id (pos 1))
    replenish_all request_id event_id zero warehouse_id product_id availability.available_quantity
        (r ∷ rs)

  -- `checkAndTriggerReplenishment` once its arguments are told apart.
  unfoldable pub check_product : (ℕ → String) → (ℕ → String) → String → String → Replenishment ⊤
  unfolding check_rules
  check_product request_id event_id warehouse_id product_id = do
    rules ← in_inventory (list_reorder_rules warehouse_id product_id)
    check_rules request_id event_id warehouse_id product_id rules

  -- The product may be the second or the third argument.
  unfoldable pub check_and_trigger_replenishment :
      (ℕ → String) → (ℕ → String) → String → String → String → Replenishment ⊤
  unfolding check_product
  check_and_trigger_replenishment request_id event_id warehouse_or_tenant warehouse_or_product
        product_id =
      if is_empty product_id
      then check_product request_id event_id warehouse_or_tenant warehouse_or_product
      else check_product request_id event_id warehouse_or_product product_id

  -- The loop of `evaluateAndTriggerReplenishment`.
  unfoldable pub check_all :
      (ℕ → ℕ → String) → (ℕ → ℕ → String) → ℕ → String → List ReorderRule → Replenishment ⊤
  check_all request_id event_id n warehouse_id [] = pure tt
  check_all request_id event_id n warehouse_id (rule ∷ rules) = do
    check_and_trigger_replenishment (request_id n) (event_id n) warehouse_id rule.product_id ""
    check_all request_id event_id (suc n) warehouse_id rules

  unfoldable pub evaluate_and_trigger_replenishment :
      (ℕ → ℕ → String) → (ℕ → ℕ → String) → String → String → Replenishment ⊤
  unfolding check_all
  evaluate_and_trigger_replenishment request_id event_id warehouse_or_tenant warehouse_id = do
    let warehouse = or_text warehouse_id warehouse_or_tenant
    rules ← in_inventory (list_reorder_rules warehouse "")
    check_all request_id event_id zero warehouse rules
