-- ===== src/Procurement/Repository.antt =====
-- apps/api/src/modules/procurement/infrastructure/in-memory-procurement.repository.ts: the maps of
-- the class InMemoryProcurementRepository and its methods. A `find` is a function of the state, a
-- write an action.
use autonomous_enterprise.Shared.{
  Action, modify, pure, ok, err, fault, ◌>>◌, Store, lookup, insert, values, find_value, filter_by,
  is_empty, is_present, String, ◌==◌, ◌||◌, if◌then◌else◌, Option, List,
}
use autonomous_enterprise.Procurement.Types.{
  Supplier, PurchaseRequest, PurchaseOrder, SupplierQuotation, GoodsReceipt,
}

pub record ProcurementRepository : Type 0 where
  pub suppliers : Store Supplier
  pub purchase_requests : Store PurchaseRequest
  pub purchase_orders : Store PurchaseOrder
  pub supplier_quotations : Store SupplierQuotation
  pub goods_receipts : Store GoodsReceipt

abbrev Repo : Type 0 → Type 0
Repo A = Action ProcurementRepository A

abbrev pub create_supplier : Supplier → Repo Supplier
create_supplier s = do modify (λ r. record r { suppliers = insert s.id s r.suppliers }); pure s

abbrev pub find_supplier_by_id : String → ProcurementRepository → Option Supplier
find_supplier_by_id id r = lookup id r.suppliers

abbrev pub find_supplier_by_name : String → ProcurementRepository → Option Supplier
find_supplier_by_name name r = find_value (λ s. s.name == name) r.suppliers

abbrev pub find_all_suppliers : ProcurementRepository → List Supplier
find_all_suppliers r = values r.suppliers

abbrev pub update_supplier : Supplier → Repo Supplier
update_supplier s r =
    if is_present (lookup s.id r.suppliers)
    then (ok s, record r { suppliers = insert s.id s r.suppliers })
    else (err (fault "Supplier" s.id), r)

abbrev pub create_purchase_request : PurchaseRequest → Repo PurchaseRequest
create_purchase_request q = do
  modify (λ r. record r { purchase_requests = insert q.id q r.purchase_requests })
  pure q

abbrev pub find_purchase_request_by_id : String → ProcurementRepository → Option PurchaseRequest
find_purchase_request_by_id id r = lookup id r.purchase_requests

abbrev pub find_all_purchase_requests : ProcurementRepository → List PurchaseRequest
find_all_purchase_requests r = values r.purchase_requests

abbrev pub update_purchase_request : PurchaseRequest → Repo PurchaseRequest
update_purchase_request q r =
    if is_present (lookup q.id r.purchase_requests)
    then (ok q, record r { purchase_requests = insert q.id q r.purchase_requests })
    else (err (fault "PurchaseRequest" q.id), r)

abbrev pub create_purchase_order : PurchaseOrder → Repo PurchaseOrder
create_purchase_order o = do
  modify (λ r. record r { purchase_orders = insert o.id o r.purchase_orders })
  pure o

abbrev pub find_purchase_order_by_id : String → ProcurementRepository → Option PurchaseOrder
find_purchase_order_by_id id r = lookup id r.purchase_orders

abbrev pub find_purchase_order_by_idempotency_key :
    String → ProcurementRepository → Option PurchaseOrder
find_purchase_order_by_idempotency_key key r =
    find_value (λ o. o.idempotency_key == key) r.purchase_orders

abbrev pub find_all_purchase_orders : ProcurementRepository → List PurchaseOrder
find_all_purchase_orders r = values r.purchase_orders

abbrev pub update_purchase_order : PurchaseOrder → Repo PurchaseOrder
update_purchase_order o r =
    if is_present (lookup o.id r.purchase_orders)
    then (ok o, record r { purchase_orders = insert o.id o r.purchase_orders })
    else (err (fault "PurchaseOrder" o.id), r)

abbrev pub create_supplier_quotation : SupplierQuotation → Repo SupplierQuotation
create_supplier_quotation q = do
  modify (λ r. record r { supplier_quotations = insert q.id q r.supplier_quotations })
  pure q

unfoldable pub find_supplier_quotations :
    String → String → ProcurementRepository → List SupplierQuotation
find_supplier_quotations product_id supplier_id r =
    filter_by (λ q. is_empty supplier_id || q.supplier_id == supplier_id)
      (filter_by (λ q. is_empty product_id || q.product_id == product_id)
        (values r.supplier_quotations))

abbrev pub create_goods_receipt : GoodsReceipt → Repo GoodsReceipt
create_goods_receipt g = do
  modify (λ r. record r { goods_receipts = insert g.id g r.goods_receipts })
  pure g

abbrev pub find_goods_receipts_by_purchase_order_id :
    String → ProcurementRepository → List GoodsReceipt
find_goods_receipts_by_purchase_order_id order_id r =
    filter_by (λ g. g.purchase_order_id == order_id) (values r.goods_receipts)

abbrev pub find_all_goods_receipts : ProcurementRepository → List GoodsReceipt
find_all_goods_receipts r = values r.goods_receipts
