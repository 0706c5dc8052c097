-- ===== src/Procurement/Requests.antt =====
-- apps/api/src/modules/procurement/procurement.service.ts: the methods of the class
-- ProcurementService on suppliers, quotations and purchase requests. `now` is the clock's text, `id`
-- the text that `Date.now()` and `Math.random()` make up; `trim` is the method of that name on texts.
use autonomous_enterprise.Shared.{
  Action, not_found, bad_request, gets, or_throw, throw_if, ◌>>=◌, ◌>>◌, is_empty, is_present,
  or_else, or_text, String, Bool, true, false, ◌||◌, Option, none, some, List,
}
use autonomous_enterprise.Shared.Int.{ℤ, pos, ltb_ℤ, leb_ℤ}
use autonomous_enterprise.Procurement.Types.{
  Supplier, PurchaseRequest, PurchaseRequestStatus, SupplierQuotation, CreateSupplierDto,
  CreatePurchaseRequestDto, CreateSupplierQuotationDto,
}
use autonomous_enterprise.Procurement.Repository
use autonomous_enterprise.Procurement.Repository.{ProcurementRepository}

abbrev Proc : Type 0 → Type 0
Proc A = Action ProcurementRepository A

unfoldable pub create_supplier :
    (String → String) → String → String → CreateSupplierDto → Proc Supplier
create_supplier trim now id dto = do
  throw_if (is_empty dto.name || is_empty (trim dto.name)) (bad_request "Supplier name is required")
  existing ← gets (Repository.find_supplier_by_name (trim dto.name))
  throw_if (is_present existing) (bad_request "Supplier with this name already exists")
  Repository.create_supplier (record {
    id = id;
    name = trim dto.name;
    contact_email = dto.contact_email;
    contact_phone = dto.contact_phone;
    is_verified = false;
    created_at = now;
    updated_at = now;
  })

unfoldable pub verified_supplier : String → Supplier → Supplier
verified_supplier now s = record s { is_verified = true; updated_at = now }

unfoldable pub verify_supplier : String → String → Proc Supplier
unfolding verified_supplier
verify_supplier now id = do
  found ← gets (Repository.find_supplier_by_id id)
  s ← or_throw found (not_found "Supplier" id)
  Repository.update_supplier (verified_supplier now s)

unfoldable pub get_supplier : String → Proc Supplier
get_supplier id = do or_throw (← gets (Repository.find_supplier_by_id id)) (not_found "Supplier" id)

unfoldable pub list_suppliers : Proc (List Supplier)
list_suppliers = gets Repository.find_all_suppliers

-- `!quantity || quantity <= 0`
abbrev pub is_no_quantity : Option ℤ → Bool
is_no_quantity none = true
is_no_quantity (some n) = leb_ℤ n (pos 0)

unfoldable pub new_request : String → String → CreatePurchaseRequestDto → PurchaseRequest
new_request now id dto = record {
  id = id;
  requested_by = or_text dto.requested_by "system";
  product_id = dto.product_id;
  quantity = or_else dto.quantity (pos 0);
  status = PurchaseRequestStatus.pending;
  reason = dto.reason;
  created_at = now;
  updated_at = now;
}

unfoldable pub create_purchase_request :
    String → String → CreatePurchaseRequestDto → Proc PurchaseRequest
unfolding new_request
create_purchase_request now id dto = do
  throw_if (is_empty dto.product_id || is_no_quantity dto.quantity)
      (bad_request "Product ID and positive quantity are required")
  Repository.create_purchase_request (new_request now id dto)

unfoldable pub request_with_status :
    PurchaseRequestStatus → String → PurchaseRequest → PurchaseRequest
request_with_status status now q = record q { status = status; updated_at = now }

unfoldable pub approve_purchase_request : String → String → Proc PurchaseRequest
unfolding request_with_status
approve_purchase_request now id = do
  found ← gets (Repository.find_purchase_request_by_id id)
  q ← or_throw found (not_found "PurchaseRequest" id)
  Repository.update_purchase_request (request_with_status PurchaseRequestStatus.approved now q)

unfoldable pub reject_purchase_request : String → String → Proc PurchaseRequest
unfolding request_with_status
reject_purchase_request now id = do
  found ← gets (Repository.find_purchase_request_by_id id)
  q ← or_throw found (not_found "PurchaseRequest" id)
  Repository.update_purchase_request (request_with_status PurchaseRequestStatus.rejected now q)

unfoldable pub get_purchase_request : String → Proc PurchaseRequest
get_purchase_request id = do
  or_throw (← gets (Repository.find_purchase_request_by_id id)) (not_found "PurchaseRequest" id)

unfoldable pub list_purchase_requests : Proc (List PurchaseRequest)
list_purchase_requests = gets Repository.find_all_purchase_requests

-- `unitPrice === undefined || unitPrice < 0`
abbrev pub is_no_price : Option ℤ → Bool
is_no_price none = true
is_no_price (some p) = ltb_ℤ p (pos 0)

unfoldable pub create_supplier_quotation :
    String → String → CreateSupplierQuotationDto → Proc SupplierQuotation
create_supplier_quotation now id dto = do
  throw_if (is_empty dto.supplier_id || is_empty dto.product_id || is_no_price dto.unit_price)
      (bad_request "Supplier ID, Product ID, and non-negative unitPrice are required")
  Repository.create_supplier_quotation (record {
    id = id;
    supplier_id = dto.supplier_id;
    product_id = dto.product_id;
    unit_price = or_else dto.unit_price (pos 0);
    valid_until = dto.valid_until;
    created_at = now;
    updated_at = now;
  })

unfoldable pub list_supplier_quotations : String → String → Proc (List SupplierQuotation)
list_supplier_quotations product_id supplier_id =
    gets (Repository.find_supplier_quotations product_id supplier_id)
