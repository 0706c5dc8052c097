-- ===== src/Procurement/Examples.antt =====
-- Runs of the procurement service on one request and its order.
use autonomous_enterprise.Shared.{
  arith, ◌≡◌, ◌≢◌, ◌⊎◌, eq_iff, refl, String, ℕ, ok, lookup, insert, some, none, true, after,
  result, find_value, values, [], ◌∷◌,
}
use autonomous_enterprise.Shared.Int.{ℤ, pos, ◌≤ℤ◌, ◌+ℤ◌, ◌*ℤ◌}
use autonomous_enterprise.Procurement.Types.{
  CreateSupplierDto, CreatePurchaseRequestDto, CreatePurchaseOrderDto, CreatePurchaseOrderItemDto,
  RecordGoodsReceiptDto, PurchaseRequest, PurchaseRequestStatus, PurchaseOrder, PurchaseOrderStatus,
}
use autonomous_enterprise.Procurement.Repository.{ProcurementRepository}
use autonomous_enterprise.Procurement.Requests.{
  create_supplier, verified_supplier, verify_supplier, new_request, create_purchase_request,
  request_with_status, approve_purchase_request,
}
use autonomous_enterprise.Procurement.Orders.{
  is_approved, item_total, new_item, price_items, new_order, create_new_order,
  create_purchase_order, order_with_key, order_with_status, new_receipt, is_covered, receive_goods,
}
use autonomous_enterprise.Procurement.Ordering.{ArePriced, sum_of_totals}
use autonomous_enterprise.Procurement.Converting.{
  create_purchase_order_converts, create_purchase_order_refused, create_purchase_order-again,
}
use autonomous_enterprise.Procurement.Receiving.{
  IsReceived, IsAwaited, received_of, receive_goods_status,
}
use autonomous_enterprise.Procurement.Reapproving.{create_purchase_order_twice}

unfoldable empty_procurement : ProcurementRepository
empty_procurement = record {
  suppliers = [];
  purchase_requests = [];
  purchase_orders = [];
  supplier_quotations = [];
  goods_receipts = [];
}

-- Prices are whole hundredths here, so that rounding changes nothing.
abbrev exact : ℤ → ℤ
exact a = a

abbrev same_text : String → String
same_text text = text

abbrev item_id : ℕ → String
item_id n = "i"

abbrev smith : CreateSupplierDto
smith = record { name = "Smith"; contact_email = ""; contact_phone = "" }

abbrev wish : CreatePurchaseRequestDto
wish = record { requested_by = ""; product_id = "p"; quantity = some (pos 3); reason = "" }

abbrev anvils : CreatePurchaseOrderItemDto
anvils = record { product_id = "p"; quantity = some (pos 3); unit_price = some (pos 200) }

abbrev order : CreatePurchaseOrderDto
order = record {
  supplier_id = "s";
  purchase_request_id = "q";
  items = anvils ∷ [];
  idempotency_key = "k";
}

abbrev second_order : CreatePurchaseOrderDto
second_order = record order { idempotency_key = "k2" }

abbrev supplied : ProcurementRepository
supplied =
    after (
      verify_supplier "t2" "s" (after (create_supplier same_text "t1" "s" smith empty_procurement)))

abbrev wished : ProcurementRepository
wished = after (create_purchase_request "t3" "q" wish supplied)

abbrev ready : ProcurementRepository
ready = after (approve_purchase_request "t4" "q" wished)

abbrev ordered : ProcurementRepository
ordered = after (create_purchase_order exact "t5" "o" "PO-1" item_id order "" ready)

abbrev ready_wish : PurchaseRequest
ready_wish = request_with_status PurchaseRequestStatus.approved "t4" (new_request "t3" "q" wish)

abbrev placed : PurchaseOrder
placed = new_order exact "t5" "o" "PO-1" order "k" (new_item exact "o" "i" anvils ∷ []) (pos 600)

ready-found : lookup "q" ready.purchase_requests ≡ some ready_wish
unfolding empty_procurement create_supplier verified_supplier verify_supplier new_request
    create_purchase_request request_with_status approve_purchase_request item_total new_item
    price_items new_order create_new_order create_purchase_order order_with_status new_receipt
    is_covered receive_goods lookup insert values find_value ◌+ℤ◌ ◌*ℤ◌
ready-found = refl

ready_wish-key : ready_wish.id ≡ "q"
unfolding empty_procurement create_supplier verified_supplier verify_supplier new_request
    create_purchase_request request_with_status approve_purchase_request item_total new_item
    price_items new_order create_new_order create_purchase_order order_with_status new_receipt
    is_covered receive_goods lookup insert values find_value ◌+ℤ◌ ◌*ℤ◌
ready_wish-key = refl

ready-new : order_with_key "k" ready ≡ none
unfolding empty_procurement create_supplier verified_supplier verify_supplier new_request
    create_purchase_request request_with_status approve_purchase_request item_total new_item
    price_items new_order create_new_order create_purchase_order order_with_status new_receipt
    is_covered receive_goods lookup insert values find_value ◌+ℤ◌ ◌*ℤ◌
ready-new = refl

order_runs :
    create_purchase_order exact "t5" "o" "PO-1" item_id order "" ready ≡ (ok placed, ordered)
unfolding empty_procurement create_supplier verified_supplier verify_supplier new_request
    create_purchase_request request_with_status approve_purchase_request item_total new_item
    price_items new_order create_new_order create_purchase_order order_with_status new_receipt
    is_covered receive_goods lookup insert values find_value ◌+ℤ◌ ◌*ℤ◌
order_runs = refl

order_returns :
    result (create_purchase_order exact "t5" "o" "PO-1" item_id order "" ready) ≡ ok placed
unfolding empty_procurement create_supplier verified_supplier verify_supplier new_request
    create_purchase_request request_with_status approve_purchase_request item_total new_item
    price_items new_order create_new_order create_purchase_order order_with_status new_receipt
    is_covered receive_goods lookup insert values find_value ◌+ℤ◌ ◌*ℤ◌
order_returns = refl

create_purchase_order_converts_example :
    (is_approved ready_wish.status ≡ true)
    × (lookup "q" ordered.purchase_requests
        ≡ some (request_with_status PurchaseRequestStatus.converted "t5" ready_wish))
    × (lookup "o" ordered.purchase_orders ≡ some placed)
    × (placed.status ≡ PurchaseOrderStatus.draft)
    × (placed.total_amount ≡ exact (sum_of_totals placed.items))
    × ArePriced exact "o" placed.items
create_purchase_order_converts_example =
    create_purchase_order_converts exact "t5" "o" "PO-1" item_id order "" ready ready_wish placed
      ready-new refl ready-found ready_wish-key order_returns

create_purchase_order-again_example :
    create_purchase_order exact "t6" "o2" "PO-2" item_id order "" ordered ≡ (ok placed, ordered)
create_purchase_order-again_example =
    create_purchase_order-again exact "t5" "o" "PO-1" "t6" "o2" "PO-2" item_id item_id order order
      "" "" ready ordered placed refl refl order_runs

abbrev converted_wish : PurchaseRequest
converted_wish = request_with_status PurchaseRequestStatus.converted "t5" ready_wish

ordered-found : lookup "q" ordered.purchase_requests ≡ some converted_wish
unfolding empty_procurement create_supplier verified_supplier verify_supplier new_request
    create_purchase_request request_with_status approve_purchase_request item_total new_item
    price_items new_order create_new_order create_purchase_order order_with_status new_receipt
    is_covered receive_goods lookup insert values find_value ◌+ℤ◌ ◌*ℤ◌
ordered-found = refl

ordered-new : order_with_key "k2" ordered ≡ none
unfolding empty_procurement create_supplier verified_supplier verify_supplier new_request
    create_purchase_request request_with_status approve_purchase_request item_total new_item
    price_items new_order create_new_order create_purchase_order order_with_status new_receipt
    is_covered receive_goods lookup insert values find_value ◌+ℤ◌ ◌*ℤ◌
ordered-new = refl

converted_wish-status : converted_wish.status ≢ PurchaseRequestStatus.approved
unfolding empty_procurement create_supplier verified_supplier verify_supplier new_request
    create_purchase_request request_with_status approve_purchase_request item_total new_item
    price_items new_order create_new_order create_purchase_order order_with_status new_receipt
    is_covered receive_goods lookup insert values find_value ◌+ℤ◌ ◌*ℤ◌
converted_wish-status e = ground arith

create_purchase_order_refused_example :
    (after (create_purchase_order exact "t6" "o2" "PO-2" item_id second_order "" ordered) ≡ ordered)
    × (¬ (
        result (create_purchase_order exact "t6" "o2" "PO-2" item_id second_order "" ordered)
        ≡ ok placed))
create_purchase_order_refused_example =
    create_purchase_order_refused exact "t6" "o2" "PO-2" item_id second_order "" ordered
      converted_wish ordered-new refl ordered-found converted_wish-status placed

abbrev second_id : String
second_id = "o2"

second_id-apart : second_id ≢ "o"
second_id-apart e = ground (arith, (eq_iff second_id "o").1 e)

create_purchase_order_twice_example :
    let again = create_purchase_order exact "t8" "o2" "PO-2" item_id second_order "" in
    let u = after (approve_purchase_request "t7" "q" ordered) in
    ((after (again ordered) ≡ ordered) × (¬ (result (again ordered) ≡ ok placed)))
    × ((o' : PurchaseOrder) × (result (again u) ≡ ok o')
        × (o'.purchase_request_id ≡ "q")
        × (lookup "o2" (after (again u)).purchase_orders ≡ some o')
        × (lookup "o" (after (again u)).purchase_orders ≡ some placed))
create_purchase_order_twice_example =
    create_purchase_order_twice exact "t5" "o" "PO-1" item_id order "" ready ordered ready_wish
      placed "t7" "t8" "o2" "PO-2" "k2" "" item_id placed ready-new refl ready-found ready_wish-key
      order_runs ordered-new second_id-apart

abbrev delivery : RecordGoodsReceiptDto
delivery = record {
  purchase_order_id = "o";
  received_quantity = some (pos 3);
  warehouse_id = "w";
  received_at = "";
}

ordered-placed : lookup "o" ordered.purchase_orders ≡ some placed
unfolding empty_procurement create_supplier verified_supplier verify_supplier new_request
    create_purchase_request request_with_status approve_purchase_request item_total new_item
    price_items new_order create_new_order create_purchase_order order_with_status new_receipt
    is_covered receive_goods lookup insert values find_value ◌+ℤ◌ ◌*ℤ◌
ordered-placed = refl

placed-key : placed.id ≡ "o"
unfolding empty_procurement create_supplier verified_supplier verify_supplier new_request
    create_purchase_request request_with_status approve_purchase_request item_total new_item
    price_items new_order create_new_order create_purchase_order order_with_status new_receipt
    is_covered receive_goods lookup insert values find_value ◌+ℤ◌ ◌*ℤ◌
placed-key = refl

delivery_runs :
    result (receive_goods "t8" "g" delivery ordered) ≡ ok (new_receipt "t8" "g" delivery)
unfolding empty_procurement create_supplier verified_supplier verify_supplier new_request
    create_purchase_request request_with_status approve_purchase_request item_total new_item
    price_items new_order create_new_order create_purchase_order order_with_status new_receipt
    is_covered receive_goods lookup insert values find_value ◌+ℤ◌ ◌*ℤ◌
delivery_runs = refl

receive_goods_status_example :
    let t = after (receive_goods "t8" "g" delivery ordered) in
    ((lookup "g" t.goods_receipts ≡ some (new_receipt "t8" "g" delivery))
      × (delivery.purchase_order_id ≡ "o")
      × (delivery.received_quantity ≡ some (pos 3))
      × (pos 1 ≤ℤ pos 3))
    × ((IsReceived placed (received_of "o" t)
          × (lookup "o" t.purchase_orders
              ≡ some (record placed { status = PurchaseOrderStatus.received; updated_at = "t8" })))
        ⊎ (IsAwaited placed (received_of "o" t) × (lookup "o" t.purchase_orders ≡ some placed)))
unfolding new_receipt
receive_goods_status_example =
    receive_goods_status "t8" "g" delivery ordered placed (new_receipt "t8" "g" delivery)
      ordered-placed placed-key delivery_runs
