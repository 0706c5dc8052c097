-- ===== src/Procurement/Receiving.antt =====
-- `receiveGoods` and the status of the order.
use autonomous_enterprise.Shared.{
  arith, ◌≡◌, ◌⊎◌, inl, inr, refl, lookup, lookup-insert_self, Store, values, sum_by, filter_by,
  String, ◌==◌, ◌&&◌, some, true, false, if◌then◌else◌, Bool-cases, List, [], ◌∷◌, ok, after,
  result,
}
use autonomous_enterprise.Shared.Int.{ℤ, pos, ◌+ℤ◌, ◌≤ℤ◌, ltb_ℤ, leb_ℤ, int_laws}
use autonomous_enterprise.Shared.Lists.{total}
use autonomous_enterprise.Procurement.Types.{
  PurchaseOrder, PurchaseOrderItem, PurchaseOrderStatus, GoodsReceipt, RecordGoodsReceiptDto,
}
use autonomous_enterprise.Procurement.Repository.{
  ProcurementRepository, find_goods_receipts_by_purchase_order_id,
}
use autonomous_enterprise.Procurement.Orders.{
  order_with_status, new_receipt, total_received, total_ordered, is_covered, receive_goods,
}

-- What a receipt counts for an order, and what all stored receipts count for it together.
abbrev pub received_for : String → GoodsReceipt → ℤ
received_for id g = if g.purchase_order_id == id then g.received_quantity else pos 0

abbrev pub received_of : String → ProcurementRepository → ℤ
received_of id r = sum_by (received_for id) r.goods_receipts

-- The quantities of the items together.
abbrev pub ordered_of : PurchaseOrder → ℤ
ordered_of o = total (λ i. i.quantity) o.items

total_received-received :
    (id : String) (m : Store GoodsReceipt)
    → total_received (filter_by (λ g. g.purchase_order_id == id) (values m))
      ≡ sum_by (received_for id) m
unfolding values
total_received-received id [] = refl
total_received-received id ((k, g) ∷ m) = grind (int_laws, total_received-received id m)

total_ordered-total : (is : List PurchaseOrderItem) → total_ordered is ≡ total (λ i. i.quantity) is
total_ordered-total [] = refl
total_ordered-total (i ∷ is) = grind (int_laws, total_ordered-total is)

-- Either something is ordered and all of it received, or not.
abbrev pub IsReceived : PurchaseOrder → ℤ → Type 0
IsReceived o quantity = (pos 1 ≤ℤ ordered_of o) × (ordered_of o ≤ℤ quantity)

abbrev pub IsAwaited : PurchaseOrder → ℤ → Type 0
IsAwaited o quantity = (ordered_of o ≤ℤ pos 0) ⊎ (quantity +ℤ pos 1 ≤ℤ ordered_of o)

covers_cases :
    (asked there : ℤ)
    → let covered = ltb_ℤ (pos 0) asked && leb_ℤ asked there in
      ((covered ≡ true) × ((pos 1 ≤ℤ asked) × (asked ≤ℤ there)))
      ⊎ ((covered ≡ false) × ((asked ≤ℤ pos 0) ⊎ (there +ℤ pos 1 ≤ℤ asked)))
covers_cases asked there = elim (Bool-cases (ltb_ℤ (pos 0) asked)) [
  | inl some_asked ↦ elim (Bool-cases (leb_ℤ asked there)) [
    | inl enough ↦ inl (rw (some_asked, enough) refl, (grind int_laws, grind int_laws))
    | inr few ↦ inr (rw (some_asked, few) refl, inr (grind int_laws))
  ]
  | inr none_asked ↦ inr (rw none_asked refl, inl (grind int_laws))
]

is_covered_cases :
    (o : PurchaseOrder) (id : String) (r : ProcurementRepository)
    → let covered = is_covered o (find_goods_receipts_by_purchase_order_id id r) in
      ((covered ≡ true) × IsReceived o (received_of id r))
      ⊎ ((covered ≡ false) × IsAwaited o (received_of id r))
unfolding is_covered
is_covered_cases o id r =
    rw (total_ordered-total o.items, total_received-received id r.goods_receipts)
      (covers_cases (ordered_of o) (received_of id r))

-- The order with the status `received`, if the receipts cover it.
receive_goods_written :
    (now id : String) (dto : RecordGoodsReceiptDto) (r : ProcurementRepository) (o : PurchaseOrder)
    (g : GoodsReceipt)
    → lookup dto.purchase_order_id r.purchase_orders ≡ some o
    → o.id ≡ dto.purchase_order_id
    → result (receive_goods now id dto r) ≡ ok g
    → let t = after (receive_goods now id dto r) in
      (lookup dto.purchase_order_id t.purchase_orders
        ≡ some (
            if is_covered o (find_goods_receipts_by_purchase_order_id dto.purchase_order_id t)
            then record o { status = PurchaseOrderStatus.received; updated_at = now }
            else o))
unfolding receive_goods new_receipt order_with_status
receive_goods_written now id dto r o g found key done = ground (
  arith,
  lookup-insert_self dto.purchase_order_id (order_with_status PurchaseOrderStatus.received now o)
      r.purchase_orders,
)

receive_goods_stored :
    (now id : String) (dto : RecordGoodsReceiptDto) (r : ProcurementRepository) (o : PurchaseOrder)
    (g : GoodsReceipt)
    → lookup dto.purchase_order_id r.purchase_orders ≡ some o
    → o.id ≡ dto.purchase_order_id
    → result (receive_goods now id dto r) ≡ ok g
    → (lookup id (after (receive_goods now id dto r)).goods_receipts ≡ some g)
      × (g.purchase_order_id ≡ dto.purchase_order_id)
      × (dto.received_quantity ≡ some g.received_quantity)
      × (pos 1 ≤ℤ g.received_quantity)
unfolding receive_goods new_receipt
receive_goods_stored now id dto r o g found key done =
    ground (arith, lookup-insert_self id g r.goods_receipts)

-- When `receiveGoods` returns for an order that is stored under its identifier, the receipt is
-- stored, for that order and with the positive quantity of the call. If the items of the order
-- ask for something and the quantities of all stored receipts of the order add up to at least
-- what the items ask for, the order is received afterwards; and otherwise it is unchanged.
pub receive_goods_status :
    (now id : String) (dto : RecordGoodsReceiptDto) (r : ProcurementRepository) (o : PurchaseOrder)
    (g : GoodsReceipt)
    → lookup dto.purchase_order_id r.purchase_orders ≡ some o
    → o.id ≡ dto.purchase_order_id
    → result (receive_goods now id dto r) ≡ ok g
    → let t = after (receive_goods now id dto r) in
      let order_after = lookup dto.purchase_order_id t.purchase_orders in
      let quantity = received_of dto.purchase_order_id t in
      ((lookup id t.goods_receipts ≡ some g)
        × (g.purchase_order_id ≡ dto.purchase_order_id)
        × (dto.received_quantity ≡ some g.received_quantity)
        × (pos 1 ≤ℤ g.received_quantity))
      × ((IsReceived o quantity
            × (order_after
                ≡ some (record o { status = PurchaseOrderStatus.received; updated_at = now })))
          ⊎ (IsAwaited o quantity × (order_after ≡ some o)))
receive_goods_status now id dto r o g found key done =
    let t = after (receive_goods now id dto r) in
    let written = receive_goods_written now id dto r o g found key done in
    (
      receive_goods_stored now id dto r o g found key done,
      elim (is_covered_cases o dto.purchase_order_id t) [
        | inl (covered, enough) ↦ inl (enough, rw covered at written)
        | inr (missing, few) ↦ inr (few, rw missing at written)
      ],
    )
