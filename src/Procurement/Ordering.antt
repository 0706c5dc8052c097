-- ===== src/Procurement/Ordering.antt =====
-- What `createPurchaseOrder` checks and what it stores.
use autonomous_enterprise.Shared.{
  arith, ◌≡◌, refl, lookup, insert, is_empty, String, ℕ, suc, List, [], ◌∷◌, none, some, true,
  false, ok, after, result, Result-cases, inl, inr, ⊤,
}
use autonomous_enterprise.Shared.Int.{ℤ, pos, ◌+ℤ◌, ◌*ℤ◌, ◌≤ℤ◌, int_laws}
use autonomous_enterprise.Procurement.Types.{
  Supplier, PurchaseRequest, PurchaseRequestStatus, PurchaseOrder, PurchaseOrderItem,
  PurchaseOrderStatus, CreatePurchaseOrderDto, CreatePurchaseOrderItemDto,
}
use autonomous_enterprise.Procurement.Repository.{ProcurementRepository}
use autonomous_enterprise.Procurement.Requests.{request_with_status}
use autonomous_enterprise.Procurement.Orders.{
  is_approved, is_bad_item, requested, item_total, new_item, price_items, new_order,
  create_new_order,
}

-- Every item of the order is of a positive quantity at no negative price, and its total price is
-- their rounded product.
abbrev pub ArePriced : (ℤ → ℤ) → String → List PurchaseOrderItem → Type 0
ArePriced two_decimals order_id [] = ⊤
ArePriced two_decimals order_id (i ∷ is) =
    (i.purchase_order_id ≡ order_id)
    × (pos 1 ≤ℤ i.quantity)
    × (pos 0 ≤ℤ i.unit_price)
    × (i.total_price ≡ two_decimals (i.quantity *ℤ i.unit_price))
    × ArePriced two_decimals order_id is

abbrev pub sum_of_totals : List PurchaseOrderItem → ℤ
sum_of_totals [] = pos 0
sum_of_totals (i ∷ is) = i.total_price +ℤ sum_of_totals is

pub requested_same : (id : String) (r : ProcurementRepository) → after (requested id r) ≡ r
requested_same id r = ground arith

pub price_items_same :
    (two_decimals : ℤ → ℤ) (order_id : String) (item_id : ℕ → String) (n : ℕ)
    (xs : List CreatePurchaseOrderItemDto) (t : ℤ) (r : ProcurementRepository)
    → after (price_items two_decimals order_id item_id n xs t r) ≡ r
unfolding price_items
price_items_same two_decimals order_id item_id n [] t r = refl
price_items_same two_decimals order_id item_id n (x ∷ xs) t r =
    let rest =
      price_items_same two_decimals order_id item_id (suc n) xs (t +ℤ item_total two_decimals x)
        r in
    ground arith

price_items_written :
    (two_decimals : ℤ → ℤ) (order_id : String) (item_id : ℕ → String) (n : ℕ)
    (xs : List CreatePurchaseOrderItemDto) (t : ℤ) (r : ProcurementRepository)
    (p : List PurchaseOrderItem × ℤ)
    → result (price_items two_decimals order_id item_id n xs t r) ≡ ok p
    → (p.1 ≡ t +ℤ sum_of_totals p.0) × ArePriced two_decimals order_id p.0
unfolding price_items new_item item_total
price_items_written two_decimals order_id item_id n [] t r p done = grind (int_laws)
price_items_written two_decimals order_id item_id n (x ∷ xs) t r p done =
    let same =
      price_items_same two_decimals order_id item_id (suc n) xs (t +ℤ item_total two_decimals x)
        r in
    elim (Result-cases (
      result (
        price_items two_decimals order_id item_id (suc n) xs (t +ℤ item_total two_decimals x) r))) [
          | inl (e, failed) ↦ ground arith
          | inr (q, ran) ↦
              let more =
                price_items_written two_decimals order_id item_id (suc n) xs
                  (t +ℤ item_total two_decimals x) r q ran in
              grind (int_laws)
        ]

-- Whether the items are priced depends on the items alone.
pub price_items_again :
    (two_decimals : ℤ → ℤ) (order_id order_id' : String) (item_id item_id' : ℕ → String) (n : ℕ)
    (xs : List CreatePurchaseOrderItemDto) (t : ℤ) (r r' : ProcurementRepository)
    (p : List PurchaseOrderItem × ℤ)
    → result (price_items two_decimals order_id item_id n xs t r) ≡ ok p
    → (p' : List PurchaseOrderItem × ℤ) × (price_items two_decimals order_id' item_id' n xs t r'
        ≡ (ok p', r'))
unfolding price_items
price_items_again two_decimals order_id order_id' item_id item_id' n [] t r r' p done =
    (([], t), refl)
price_items_again two_decimals order_id order_id' item_id item_id' n (x ∷ xs) t r r' p done =
    let more = t +ℤ item_total two_decimals x in
    let good : is_bad_item x ≡ false = ground arith in
    elim (Result-cases (result (price_items two_decimals order_id item_id (suc n) xs more r))) [
      | inl (e, failed) ↦ absurd (ground arith)
      | inr (q, ran) ↦
          let ((rest, sum), again) =
            price_items_again two_decimals order_id order_id' item_id item_id' (suc n) xs more r r'
              q ran in
          ((new_item two_decimals order_id' (item_id' n) x ∷ rest, sum), rw (good, again) refl)
    ]

module _ (two_decimals : ℤ → ℤ) (now id number : String) (item_id : ℕ → String)
    (dto : CreatePurchaseOrderDto) (key : String) (r : ProcurementRepository) where
  pub create_verified :
      (o : PurchaseOrder) (s : Supplier)
      → lookup dto.supplier_id r.suppliers ≡ some s
      → result (create_new_order two_decimals now id number item_id dto key r) ≡ ok o
      → s.is_verified ≡ true
  unfolding create_new_order
  create_verified o s found done = ground arith

  pub create_unknown :
      (o : PurchaseOrder)
      → lookup dto.supplier_id r.suppliers ≡ none
      → ¬ (result (create_new_order two_decimals now id number item_id dto key r) ≡ ok o)
  unfolding create_new_order
  create_unknown o unknown done = ground arith

  pub create_unrequested :
      (o : PurchaseOrder)
      → is_empty dto.purchase_request_id ≡ false
      → lookup dto.purchase_request_id r.purchase_requests ≡ none
      → ¬ (result (create_new_order two_decimals now id number item_id dto key r) ≡ ok o)
  unfolding create_new_order
  create_unrequested o named unknown done = ground arith

  pub create_unapproved :
      (o : PurchaseOrder) (q : PurchaseRequest)
      → is_empty dto.purchase_request_id ≡ false
      → lookup dto.purchase_request_id r.purchase_requests ≡ some q
      → is_approved q.status ≡ false
      → ¬ (result (create_new_order two_decimals now id number item_id dto key r) ≡ ok o)
  unfolding create_new_order
  create_unapproved o q named found unapproved done = ground arith

  pub create_unapproved_same :
      (q : PurchaseRequest)
      → is_empty dto.purchase_request_id ≡ false
      → lookup dto.purchase_request_id r.purchase_requests ≡ some q
      → is_approved q.status ≡ false
      → after (create_new_order two_decimals now id number item_id dto key r) ≡ r
  unfolding create_new_order
  create_unapproved_same q named found unapproved = ground arith

  pub create_requested_written :
      (o : PurchaseOrder) (q : PurchaseRequest)
      → is_empty dto.purchase_request_id ≡ false
      → lookup dto.purchase_request_id r.purchase_requests ≡ some q
      → lookup q.id r.purchase_requests ≡ some q
      → result (create_new_order two_decimals now id number item_id dto key r) ≡ ok o
      → (is_approved q.status ≡ true)
        × (o.id ≡ id)
        × (o.idempotency_key ≡ key)
        × (o.status ≡ PurchaseOrderStatus.draft)
        × (o.total_amount ≡ two_decimals (sum_of_totals o.items))
        × ArePriced two_decimals id o.items
        × (after (create_new_order two_decimals now id number item_id dto key r) ≡ record r {
          purchase_orders = insert id o r.purchase_orders;
          purchase_requests =
              insert q.id
                (request_with_status PurchaseRequestStatus.converted now q)
                r.purchase_requests;
        })
  unfolding create_new_order
  create_requested_written o q named found keyed done =
      let same = price_items_same two_decimals id item_id 0 dto.items (pos 0) r in
      elim (Result-cases (result (price_items two_decimals id item_id 0 dto.items (pos 0) r))) [
        | inl (e, failed) ↦ ground arith
        | inr (p, ran) ↦
            let priced = price_items_written two_decimals id item_id 0 dto.items (pos 0) r p ran in
            let total : p.1 ≡ sum_of_totals p.0 = grind (int_laws) in ground arith
      ]

  -- What the order says of the call.
  pub create_named :
      (o : PurchaseOrder)
      → result (create_new_order two_decimals now id number item_id dto key r) ≡ ok o
      → o.purchase_request_id ≡ dto.purchase_request_id
  unfolding create_new_order new_order
  create_named o done = ground arith

  -- The same order again, in any state with the same suppliers where the request is approved.
  pub create_again :
      (o : PurchaseOrder) (q : PurchaseRequest) (now' id' number' key' : String)
      (item_id' : ℕ → String) (dto' : CreatePurchaseOrderDto) (r' : ProcurementRepository)
      → result (create_new_order two_decimals now id number item_id dto key r) ≡ ok o
      → is_empty dto.purchase_request_id ≡ false
      → r'.suppliers ≡ r.suppliers
      → lookup dto.purchase_request_id r'.purchase_requests ≡ some q
      → q.id ≡ dto.purchase_request_id
      → is_approved q.status ≡ true
      → dto'.supplier_id ≡ dto.supplier_id
      → dto'.purchase_request_id ≡ dto.purchase_request_id
      → dto'.items ≡ dto.items
      → (o' : PurchaseOrder) × (result
            (create_new_order two_decimals now' id' number' item_id' dto' key' r')
          ≡ ok o')
  unfolding create_new_order
  create_again o q now' id' number' key' item_id' dto' r' done named suppliers found own approved
        supplier request items =
      elim (Result-cases (result (price_items two_decimals id item_id 0 dto.items (pos 0) r))) [
        | inl (e, failed) ↦
            absurd (ground (arith, price_items_same two_decimals id item_id 0 dto.items (pos 0) r))
        | inr (p, ran) ↦
            let (p', again) =
              price_items_again two_decimals id id' item_id item_id' 0 dto.items (pos 0) r r' p
                ran in
            (new_order two_decimals now' id' number' dto' key' p'.0 p'.1, ground arith)
      ]
