-- ===== src/Procurement/Converting.antt =====
-- A purchase request is converted by one order, and an idempotency key makes one order.
use autonomous_enterprise.Shared.{
  arith, ◌≡◌, ◌≢◌, sym, lookup, lookup-insert_self, is_empty, or_existing, or_text, String, ℕ, none,
  some, true, false, ok, after, result, Option-cases, inl, inr, find_value-insert, ◌==◌, eq_iff,
}
use autonomous_enterprise.Shared.Int.{ℤ, pos}
use autonomous_enterprise.Procurement.Types.{
  PurchaseRequest, PurchaseRequestStatus, PurchaseOrder, PurchaseOrderStatus,
  CreatePurchaseOrderDto,
}
use autonomous_enterprise.Procurement.Repository.{
  ProcurementRepository, find_purchase_order_by_idempotency_key,
}
use autonomous_enterprise.Procurement.Requests.{request_with_status}
use autonomous_enterprise.Procurement.Orders.{
  is_approved, create_new_order, order_with_key, create_purchase_order, new_order,
}
use autonomous_enterprise.Procurement.Ordering.{
  ArePriced, sum_of_totals, create_unapproved, create_unapproved_same, create_requested_written,
  price_items_same,
}

-- When `createPurchaseOrder`, on a key that no order has, returns an order for a purchase request
-- that is stored under its identifier, then the request was approved and is converted afterwards;
-- the order is a stored draft, each of its items has a positive quantity, no negative price and
-- their rounded product as its total price, and the order's total is the rounded sum of these.
pub create_purchase_order_converts :
    (two_decimals : ℤ → ℤ) (now id number : String) (item_id : ℕ → String)
    (dto : CreatePurchaseOrderDto) (header : String) (r : ProcurementRepository)
    (q : PurchaseRequest) (o : PurchaseOrder)
    → order_with_key (or_text dto.idempotency_key header) r ≡ none
    → is_empty dto.purchase_request_id ≡ false
    → lookup dto.purchase_request_id r.purchase_requests ≡ some q
    → q.id ≡ dto.purchase_request_id
    → result (create_purchase_order two_decimals now id number item_id dto header r) ≡ ok o
    → let t = after (create_purchase_order two_decimals now id number item_id dto header r) in
      (is_approved q.status ≡ true)
      × (lookup dto.purchase_request_id t.purchase_requests
          ≡ some (request_with_status PurchaseRequestStatus.converted now q))
      × (lookup id t.purchase_orders ≡ some o)
      × (o.status ≡ PurchaseOrderStatus.draft)
      × (o.total_amount ≡ two_decimals (sum_of_totals o.items))
      × ArePriced two_decimals id o.items
unfolding create_purchase_order
create_purchase_order_converts two_decimals now id number item_id dto header r q o new named found
      key done =
    let fresh : result (
          create_new_order two_decimals now id number item_id dto
            (or_text dto.idempotency_key header) r)
        ≡ ok o =
      rw (new, or_existing) at done in
    let (approved, _, _, draft, total, priced, written) =
      create_requested_written two_decimals now id number item_id dto
        (or_text dto.idempotency_key header) r o q named found (cc (key, found)) fresh in
    let there = lookup-insert_self id o r.purchase_orders in
    let converted =
      lookup-insert_self q.id (request_with_status PurchaseRequestStatus.converted now q)
        r.purchase_requests in
    rw (new, or_existing, written) (approved, rw (sym key) converted, there, draft, total, priced)

is_approved-false :
    (status : PurchaseRequestStatus)
    → status ≢ PurchaseRequestStatus.approved
    → is_approved status ≡ false
is_approved-false status other = ground arith

-- A purchase request that is not approved, a converted one too, makes no order: a call of
-- `createPurchaseOrder` for it, on a key that no order has, changes nothing and returns no order.
pub create_purchase_order_refused :
    (two_decimals : ℤ → ℤ) (now id number : String) (item_id : ℕ → String)
    (dto : CreatePurchaseOrderDto) (header : String) (r : ProcurementRepository)
    (q : PurchaseRequest)
    → order_with_key (or_text dto.idempotency_key header) r ≡ none
    → is_empty dto.purchase_request_id ≡ false
    → lookup dto.purchase_request_id r.purchase_requests ≡ some q
    → q.status ≢ PurchaseRequestStatus.approved
    → (o : PurchaseOrder)
    → (after (create_purchase_order two_decimals now id number item_id dto header r) ≡ r)
      × (¬ (result (create_purchase_order two_decimals now id number item_id dto header r) ≡ ok o))
unfolding create_purchase_order
create_purchase_order_refused two_decimals now id number item_id dto header r q new named found
      unapproved o =
    let key = or_text dto.idempotency_key header in
    let refused = is_approved-false q.status unapproved in
    rw (new, or_existing)
      (
        create_unapproved_same two_decimals now id number item_id dto key r q named found refused,
        create_unapproved two_decimals now id number item_id dto key r o q named found refused,
      )

-- What a first call with a key stores is what the key finds.
create_new_order_found :
    (two_decimals : ℤ → ℤ) (now id number : String) (item_id : ℕ → String)
    (dto : CreatePurchaseOrderDto) (key : String) (r : ProcurementRepository) (o : PurchaseOrder)
    → find_purchase_order_by_idempotency_key key r ≡ none
    → result (create_new_order two_decimals now id number item_id dto key r) ≡ ok o
    → find_purchase_order_by_idempotency_key key
        (after (create_new_order two_decimals now id number item_id dto key r))
      ≡ some o
unfolding create_new_order new_order
create_new_order_found two_decimals now id number item_id dto key r o new done =
    let same = price_items_same two_decimals id item_id 0 dto.items (pos 0) r in
    ground (
      arith,
      eq_iff key key,
      find_value-insert (λ x. x.idempotency_key == key) id o r.purchase_orders new,
    )

-- Once a call of `createPurchaseOrder` with a non-empty idempotency key has returned an order, a
-- next call with the key returns the same order and changes nothing, whatever else it asks.
pub create_purchase_order-again :
    (two_decimals : ℤ → ℤ) (now id number later id' number' : String)
    (item_id item_id' : ℕ → String) (dto dto' : CreatePurchaseOrderDto) (header header' : String)
    (r t : ProcurementRepository) (o : PurchaseOrder)
    → is_empty (or_text dto.idempotency_key header) ≡ false
    → or_text dto'.idempotency_key header' ≡ or_text dto.idempotency_key header
    → create_purchase_order two_decimals now id number item_id dto header r ≡ (ok o, t)
    → create_purchase_order two_decimals later id' number' item_id' dto' header' t ≡ (ok o, t)
unfolding create_purchase_order
create_purchase_order-again two_decimals now id number later id' number' item_id item_id' dto dto'
      header header' r t o keyed same done =
    let key = or_text dto.idempotency_key header in
    elim (Option-cases (find_purchase_order_by_idempotency_key key r)) [
      | inl new ↦
          ground (arith, create_new_order_found two_decimals now id number item_id dto key r o new)
      | inr (x, old) ↦ ground arith
    ]
