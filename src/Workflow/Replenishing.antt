-- ===== src/Workflow/Replenishing.antt =====
-- What the replenishment service announces for the rules of a product.
use autonomous_enterprise.Shared.{
  Action, arith, ◌≡◌, refl, sym, ap, ◌∙◌, Bool-cases, inl, inr, Result, ok, then_ok, after, result,
  is_empty, ⊤, String, false, if◌then◌else◌, List, [], ◌∷◌, ◌++◌, Option, none, some, weight, ℕ,
  zero, suc,
}
use mathlib.Core.List.{append_assoc, append-nil}
use autonomous_enterprise.Shared.Int.{ℤ, pos, ◌≤ℤ◌, leb_ℤ, ltb_ℤ}
use autonomous_enterprise.Outbox.{OutboxEvent, OutboxStatus, publish}
use autonomous_enterprise.Inventory.Types.{ReorderRule, Stock}
use autonomous_enterprise.Inventory.Repository.{InventoryRepository, find_reorder_rules, find_stock}
use autonomous_enterprise.Inventory.Catalogue.{list_reorder_rules}
use autonomous_enterprise.Inventory.Stocks.{available, check_availability}
use autonomous_enterprise.Procurement.Requests.{create_purchase_request}
use autonomous_enterprise.Workflow.Replenishment.{
  ReplenishmentState, is_below, replenish, replenish_all, check_rules, check_product,
  check_and_trigger_replenishment, check_all, evaluate_and_trigger_replenishment,
}

-- Every rule orders something.
abbrev pub OrderSomething : List ReorderRule → Type 0
OrderSomething [] = ⊤
OrderSomething (r ∷ rs) = (pos 1 ≤ℤ r.reorder_quantity) × OrderSomething rs

-- The call returns, leaves the inventory, and appends the events to the outbox.
abbrev pub Announces :
    ReplenishmentState → List OutboxEvent → Result ⊤ × ReplenishmentState → Type 0
Announces s events p =
    (result p ≡ ok tt)
    × ((after p).inventory ≡ s.inventory)
    × ((after p).outbox ≡ s.outbox ++ events)

Announces-then :
    (s t : ReplenishmentState) (first rest : List OutboxEvent) (p : Result ⊤ × ReplenishmentState)
    → t.inventory ≡ s.inventory
    → t.outbox ≡ s.outbox ++ first
    → Announces t rest p
    → Announces s (first ++ rest) p
Announces-then s t first rest p kept sent (done, same, more) = (
  done,
  same ∙ kept,
  more ∙ ap (λ events. events ++ rest) sent ∙ append_assoc s.outbox first rest,
)

-- Each rule names a product, all rules of which at the warehouse order something.
abbrev pub ProductsOrder : String → InventoryRepository → List ReorderRule → Type 0
ProductsOrder w r [] = ⊤
ProductsOrder w r (rule ∷ rules) =
    (is_empty rule.product_id ≡ false)
    × OrderSomething (find_reorder_rules w rule.product_id r)
    × ProductsOrder w r rules

-- The available quantity of the stored stock, 0 where none is stored.
abbrev pub level : String → String → InventoryRepository → ℤ
level w p r = weight (λ stock. stock.available_quantity) (find_stock w p r)

available-weight :
    (stock : Option Stock) → available stock ≡ weight (λ stock. stock.available_quantity) stock
available-weight none = refl
available-weight (some stock) = refl

available-level :
    (w p : String) (r : InventoryRepository) → available (find_stock w p r) ≡ level w p r
available-level w p r = available-weight (find_stock w p r)

module _ (number_text : ℤ → String) (now : String) (request_id event_id : ℕ → String) where
  abbrev pub request_event : ℕ → OutboxEvent
  request_event n = record {
    id = event_id n;
    aggregate_type = "PurchaseRequest";
    aggregate_id = request_id n;
    event_type = "PurchaseRequestCreated";
    status = OutboxStatus.pending;
    created_at = now;
    published_at = "";
  }

  -- One event for each rule above the available quantity, in the order of the rules.
  abbrev pub announced : ℕ → ℤ → List ReorderRule → List OutboxEvent
  announced n quantity [] = []
  announced n quantity (rule ∷ rules) =
      if ltb_ℤ quantity rule.min_quantity
      then request_event n ∷ announced (suc n) quantity rules
      else announced (suc n) quantity rules

  replenish-Announces :
      (n : ℕ) (w p : String) (quantity : ℤ) (r : ReorderRule) (s : ReplenishmentState)
      → is_empty p ≡ false
      → pos 1 ≤ℤ r.reorder_quantity
      → Announces s
          (request_event n ∷ [])
          (replenish number_text now (request_id n) (event_id n) w p quantity r s)
  unfolding replenish create_purchase_request publish
  replenish-Announces n w p quantity r s named some_ordered =
      let accepted : leb_ℤ r.reorder_quantity (pos 0) ≡ false = ground arith in
      rw (named, accepted) (refl, refl, refl)

  replenish_all-Announces :
      (n : ℕ) (w p : String) (quantity : ℤ) (rules : List ReorderRule) (s : ReplenishmentState)
      → is_empty p ≡ false
      → OrderSomething rules
      → Announces s
          (announced n quantity rules)
          (replenish_all number_text now request_id event_id n w p quantity rules s)
  unfolding replenish_all
  replenish_all-Announces n w p quantity [] s named all = (refl, refl, sym (append-nil s.outbox))
  replenish_all-Announces n w p quantity (r ∷ rs) s named all =
      elim (Bool-cases (is_below quantity r)) [
        | inl e ↦
            let one = replenish-Announces n w p quantity r s named all.0 in
            rw
              (
                e,
                then_ok (replenish number_text now (request_id n) (event_id n) w p quantity r)
                    (λ _. replenish_all number_text now request_id event_id (suc n) w p quantity rs)
                    s tt one.0,
              )
              (Announces-then s
                (after (replenish number_text now (request_id n) (event_id n) w p quantity r s))
                (request_event n ∷ []) (announced (suc n) quantity rs)
                (replenish_all number_text now request_id event_id (suc n) w p quantity rs
                  (after (replenish number_text now (request_id n) (event_id n) w p quantity r s)))
                one.1 one.2 (replenish_all-Announces (suc n) w p quantity rs _ named all.1))
        | inr e ↦ rw e (replenish_all-Announces (suc n) w p quantity rs s named all.1)
      ]

  check_rules-Announces :
      (w p : String) (rules : List ReorderRule) (s : ReplenishmentState)
      → is_empty p ≡ false
      → OrderSomething rules
      → Announces s
          (announced zero (level w p s.inventory) rules)
          (check_rules number_text now request_id event_id w p rules s)
  unfolding check_rules check_availability
  check_rules-Announces w p [] s named all = (refl, refl, sym (append-nil s.outbox))
  check_rules-Announces w p (r ∷ rs) s named all = rw (sym (available-level w p s.inventory)) (
      replenish_all-Announces zero w p (available (find_stock w p s.inventory)) (r ∷ rs) s named
        all)

  -- When every reorder rule of the warehouse and the product orders at least one, a call for them
  -- returns, leaves the inventory, and appends one pending PurchaseRequestCreated event to the
  -- outbox for each of the rules whose minimum is above the available quantity, in the order of
  -- the rules.
  pub check_and_trigger_replenishment-Announces :
      (w p : String) (s : ReplenishmentState)
      → is_empty p ≡ false
      → OrderSomething (find_reorder_rules w p s.inventory)
      → Announces s
          (announced zero (level w p s.inventory) (find_reorder_rules w p s.inventory))
          (check_and_trigger_replenishment number_text now request_id event_id w p "" s)
  unfolding check_and_trigger_replenishment check_product list_reorder_rules
  check_and_trigger_replenishment-Announces w p s named all =
      check_rules-Announces w p (find_reorder_rules w p s.inventory) s named all

module _ (number_text : ℤ → String) (now : String) (request_id event_id : ℕ → ℕ → String)
    (w : String) where
  abbrev product_events : ℕ → InventoryRepository → ReorderRule → List OutboxEvent
  product_events n r rule =
      announced number_text now (request_id n) (event_id n) zero (level w rule.product_id r)
        (find_reorder_rules w rule.product_id r)

  -- The events for the product of each rule in turn.
  abbrev pub announced_all : ℕ → InventoryRepository → List ReorderRule → List OutboxEvent
  announced_all n r [] = []
  announced_all n r (rule ∷ rules) = product_events n r rule ++ announced_all (suc n) r rules

  check-Announces :
      (n : ℕ) (r : InventoryRepository) (rule : ReorderRule) (s : ReplenishmentState)
      → s.inventory ≡ r
      → is_empty rule.product_id ≡ false
      → OrderSomething (find_reorder_rules w rule.product_id r)
      → Announces s (product_events n r rule) (
          check_and_trigger_replenishment number_text now
            (request_id n)
            (event_id n)
            w
            rule.product_id
            ""
            s)
  check-Announces n r rule s kept named first = rw (sym kept) (
      check_and_trigger_replenishment-Announces number_text now (request_id n) (event_id n) w
        rule.product_id s named (rw kept first))

  check_all-Announces :
      (n : ℕ) (r : InventoryRepository) (rules : List ReorderRule) (s : ReplenishmentState)
      → s.inventory ≡ r
      → ProductsOrder w r rules
      → Announces s
          (announced_all n r rules)
          (check_all number_text now request_id event_id n w rules s)
  unfolding check_all
  check_all-Announces n r [] s kept all = (refl, refl, sym (append-nil s.outbox))
  check_all-Announces n r (rule ∷ rules) s kept (named, first, others) =
      let check : Action ReplenishmentState ⊤ =
        check_and_trigger_replenishment number_text now (request_id n) (event_id n) w
          rule.product_id "" in
      let one = check-Announces n r rule s kept named first in
      rw
        (then_ok check (λ _. check_all number_text now request_id event_id (suc n) w rules) s tt
          one.0)
        (Announces-then s (after (check s)) (product_events n r rule)
          (announced_all (suc n) r rules)
          (check_all number_text now request_id event_id (suc n) w rules (after (check s))) one.1
          one.2 (check_all-Announces (suc n) r rules (after (check s)) (one.1 ∙ kept) others))

  -- When every rule of a warehouse names a product, all rules of which order at least one, a call
  -- for the warehouse returns, leaves the inventory, and appends for each of its rules in turn a
  -- pending PurchaseRequestCreated event for each rule of the rule's product whose minimum is
  -- above the available quantity.
  pub evaluate_and_trigger_replenishment-Announces :
      (s : ReplenishmentState)
      → ProductsOrder w s.inventory (find_reorder_rules w "" s.inventory)
      → Announces s
          (announced_all zero s.inventory (find_reorder_rules w "" s.inventory))
          (evaluate_and_trigger_replenishment number_text now request_id event_id w "" s)
  unfolding evaluate_and_trigger_replenishment list_reorder_rules
  evaluate_and_trigger_replenishment-Announces s all =
      check_all-Announces zero s.inventory (find_reorder_rules w "" s.inventory) s refl all
