-- ===== src/Procurement/Orders.antt =====
-- apps/api/src/modules/procurement/procurement.service.ts: the methods of the class
-- ProcurementService on purchase orders and goods receipts. `now` is the clock's text; `id`, `number`
-- and, at each place of an order, `item_id` are texts that `Date.now()` and `Math.random()` make up;
-- `two_decimals` is `Number(x.toFixed(2))`.
use autonomous_enterprise.Shared.{
  Action, not_found, bad_request, pure, gets, or_throw, or_existing, throw_if, run_if, ◌>>=◌, ◌>>◌,
  is_empty, or_else, or_text, ℕ, suc, String, Bool, true, false, not, ◌&&◌, ◌||◌, Option, none,
  some, List, [], ◌∷◌, ⊤, if◌then◌else◌,
}
use autonomous_enterprise.Shared.Int.{ℤ, pos, ◌+ℤ◌, ◌*ℤ◌, ltb_ℤ, leb_ℤ}
use autonomous_enterprise.Procurement.Types.{
  PurchaseRequest, PurchaseRequestStatus, PurchaseOrder, PurchaseOrderItem, PurchaseOrderStatus,
  GoodsReceipt, CreatePurchaseOrderDto, CreatePurchaseOrderItemDto, RecordGoodsReceiptDto,
}
use autonomous_enterprise.Procurement.Repository
use autonomous_enterprise.Procurement.Repository.{ProcurementRepository}
use autonomous_enterprise.Procurement.Requests.{is_no_quantity, is_no_price, request_with_status}

abbrev Proc : Type 0 → Type 0
Proc A = Action ProcurementRepository A

abbrev pub is_approved : PurchaseRequestStatus → Bool
is_approved PurchaseRequestStatus.approved = true
is_approved _ = false

abbrev has_none : List CreatePurchaseOrderItemDto → Bool
has_none [] = true
has_none (item ∷ items) = false

-- The lookup of the purchase request that the order names, if it names one.
abbrev pub requested : String → Proc (Option PurchaseRequest)
requested id = if is_empty id then pure none else (do
  found ← gets (Repository.find_purchase_request_by_id id)
  q ← or_throw found (not_found "PurchaseRequest" id)
  throw_if (not (is_approved q.status)) (bad_request "Purchase Request must be APPROVED")
  pure (some q))

abbrev pub is_bad_item : CreatePurchaseOrderItemDto → Bool
is_bad_item item =
    is_empty item.product_id || is_no_quantity item.quantity || is_no_price item.unit_price

unfoldable pub item_total : (ℤ → ℤ) → CreatePurchaseOrderItemDto → ℤ
item_total two_decimals item =
    two_decimals (or_else item.quantity (pos 0) *ℤ or_else item.unit_price (pos 0))

unfoldable pub new_item : (ℤ → ℤ) → String → String → CreatePurchaseOrderItemDto → PurchaseOrderItem
unfolding item_total
new_item two_decimals order_id id item = record {
  id = id;
  purchase_order_id = order_id;
  product_id = item.product_id;
  quantity = or_else item.quantity (pos 0);
  unit_price = or_else item.unit_price (pos 0);
  total_price = item_total two_decimals item;
}

-- The pass over `dto.items`, from the place `n` and the total so far on.
unfoldable pub price_items :
    (ℤ → ℤ)
    → String
    → (ℕ → String)
    → ℕ
    → List CreatePurchaseOrderItemDto
    → ℤ
    → Proc (List PurchaseOrderItem × ℤ)
unfolding item_total new_item
price_items two_decimals order_id item_id n [] total = pure ([], total)
price_items two_decimals order_id item_id n (item ∷ items) total = do
  throw_if (is_bad_item item)
      (bad_request "Item must have valid productId, positive quantity, and non-negative unitPrice")
  (rest, sum) ←
      price_items two_decimals order_id item_id (suc n) items
        (total +ℤ item_total two_decimals item)
  pure (new_item two_decimals order_id (item_id n) item ∷ rest, sum)

unfoldable pub new_order :
    (ℤ → ℤ)
    → String
    → String
    → String
    → CreatePurchaseOrderDto
    → String
    → List PurchaseOrderItem
    → ℤ
    → PurchaseOrder
new_order two_decimals now id number dto key items total = record {
  id = id;
  supplier_id = dto.supplier_id;
  purchase_request_id = dto.purchase_request_id;
  order_number = number;
  status = PurchaseOrderStatus.draft;
  total_amount = two_decimals total;
  idempotency_key = key;
  items = items;
  created_at = now;
  updated_at = now;
}

-- `if (purchaseRequest) { … }` after the order is stored.
abbrev convert_request : String → Option PurchaseRequest → Proc ⊤
convert_request now none = pure tt
convert_request now (some q) = do
  Repository.update_purchase_request (request_with_status PurchaseRequestStatus.converted now q)
  pure tt

-- `createPurchaseOrder` once no order has the idempotency key.
unfoldable pub create_new_order :
    (ℤ → ℤ)
    → String
    → String
    → String
    → (ℕ → String)
    → CreatePurchaseOrderDto
    → String
    → Proc PurchaseOrder
unfolding request_with_status new_order
create_new_order two_decimals now id number item_id dto key = do
  throw_if (is_empty dto.supplier_id) (bad_request "Supplier ID is required")
  throw_if (has_none dto.items) (bad_request "At least one item is required in a purchase order")
  found ← gets (Repository.find_supplier_by_id dto.supplier_id)
  supplier ← or_throw found (not_found "Supplier" dto.supplier_id)
  throw_if (not supplier.is_verified) (bad_request "Supplier is not verified")
  request ← requested dto.purchase_request_id
  (items, total) ← price_items two_decimals id item_id 0 dto.items (pos 0)
  saved ←
      Repository.create_purchase_order (new_order two_decimals now id number dto key items total)
  convert_request now request
  pure saved

abbrev pub order_with_key : String → ProcurementRepository → Option PurchaseOrder
order_with_key key r =
    if is_empty key then none else Repository.find_purchase_order_by_idempotency_key key r

unfoldable pub create_purchase_order :
    (ℤ → ℤ)
    → String
    → String
    → String
    → (ℕ → String)
    → CreatePurchaseOrderDto
    → String
    → Proc PurchaseOrder
unfolding create_new_order
create_purchase_order two_decimals now id number item_id dto idempotency_header = do
  let key = or_text dto.idempotency_key idempotency_header
  existing ← gets (order_with_key key)
  or_existing existing (create_new_order two_decimals now id number item_id dto key)

unfoldable pub order_with_status : PurchaseOrderStatus → String → PurchaseOrder → PurchaseOrder
order_with_status status now o = record o { status = status; updated_at = now }

unfoldable pub approve_purchase_order : String → String → Proc PurchaseOrder
unfolding order_with_status
approve_purchase_order now id = do
  found ← gets (Repository.find_purchase_order_by_id id)
  o ← or_throw found (not_found "PurchaseOrder" id)
  Repository.update_purchase_order (order_with_status PurchaseOrderStatus.approved now o)

unfoldable pub revert_purchase_order_to_draft : String → String → Proc PurchaseOrder
unfolding order_with_status
revert_purchase_order_to_draft now id = do
  found ← gets (Repository.find_purchase_order_by_id id)
  o ← or_throw found (not_found "PurchaseOrder" id)
  Repository.update_purchase_order (order_with_status PurchaseOrderStatus.draft now o)

unfoldable pub new_receipt : String → String → RecordGoodsReceiptDto → GoodsReceipt
new_receipt now id dto = record {
  id = id;
  purchase_order_id = dto.purchase_order_id;
  received_quantity = or_else dto.received_quantity (pos 0);
  warehouse_id = dto.warehouse_id;
  received_at = or_text dto.received_at now;
  created_at = now;
  updated_at = now;
}

abbrev pub total_received : List GoodsReceipt → ℤ
total_received [] = pos 0
total_received (g ∷ gs) = g.received_quantity +ℤ total_received gs

abbrev pub total_ordered : List PurchaseOrderItem → ℤ
total_ordered [] = pos 0
total_ordered (i ∷ is) = i.quantity +ℤ total_ordered is

-- Whether the receipts cover the items of the order.
unfoldable pub is_covered : PurchaseOrder → List GoodsReceipt → Bool
is_covered o receipts =
    ltb_ℤ (pos 0) (total_ordered o.items) && leb_ℤ (total_ordered o.items) (total_received receipts)

unfoldable pub receive_goods : String → String → RecordGoodsReceiptDto → Proc GoodsReceipt
unfolding new_receipt order_with_status is_covered
receive_goods now id dto = do
  throw_if
      (is_empty dto.purchase_order_id
        || is_empty dto.warehouse_id
        || is_no_quantity dto.received_quantity)
      (bad_request "PurchaseOrder ID, Warehouse ID, and positive receivedQuantity are required")
  found ← gets (Repository.find_purchase_order_by_id dto.purchase_order_id)
  o ← or_throw found (not_found "PurchaseOrder" dto.purchase_order_id)
  saved ← Repository.create_goods_receipt (new_receipt now id dto)
  receipts ← gets (Repository.find_goods_receipts_by_purchase_order_id dto.purchase_order_id)
  run_if (is_covered o receipts) (
      Repository.update_purchase_order (order_with_status PurchaseOrderStatus.received now o)
      >> pure tt)
  pure saved

unfoldable pub get_purchase_order : String → Proc PurchaseOrder
get_purchase_order id = do
  or_throw (← gets (Repository.find_purchase_order_by_id id)) (not_found "PurchaseOrder" id)

unfoldable pub list_purchase_orders : Proc (List PurchaseOrder)
list_purchase_orders = gets Repository.find_all_purchase_orders
