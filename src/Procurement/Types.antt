-- ===== src/Procurement/Types.antt =====
-- apps/api/src/modules/procurement/domain/procurement.types.ts and the request types of
-- apps/api/src/modules/procurement/dto. An absent optional text is the empty text, an absent
-- optional number `none`. A quantity counts items, a price the smallest units of money.
use autonomous_enterprise.Shared.{String, Bool, Option, List}
use autonomous_enterprise.Shared.Int.{ℤ}

pub data PurchaseRequestStatus : Type 0 where
  pending approved rejected converted : PurchaseRequestStatus

pub data PurchaseOrderStatus : Type 0 where
  draft pending_approval approved rejected received cancelled : PurchaseOrderStatus

pub record Supplier : Type 0 where
  pub id : String
  pub name : String
  pub contact_email : String
  pub contact_phone : String
  pub is_verified : Bool
  pub created_at : String
  pub updated_at : String

pub record PurchaseRequest : Type 0 where
  pub id : String
  pub requested_by : String
  pub product_id : String
  pub quantity : ℤ
  pub status : PurchaseRequestStatus
  pub reason : String
  pub created_at : String
  pub updated_at : String

pub record PurchaseOrderItem : Type 0 where
  pub id : String
  pub purchase_order_id : String
  pub product_id : String
  pub quantity : ℤ
  pub unit_price : ℤ
  pub total_price : ℤ

pub record PurchaseOrder : Type 0 where
  pub id : String
  pub supplier_id : String
  pub purchase_request_id : String
  pub order_number : String
  pub status : PurchaseOrderStatus
  pub total_amount : ℤ
  pub idempotency_key : String
  pub items : List PurchaseOrderItem
  pub created_at : String
  pub updated_at : String

pub record SupplierQuotation : Type 0 where
  pub id : String
  pub supplier_id : String
  pub product_id : String
  pub unit_price : ℤ
  pub valid_until : String
  pub created_at : String
  pub updated_at : String

pub record GoodsReceipt : Type 0 where
  pub id : String
  pub purchase_order_id : String
  pub received_quantity : ℤ
  pub warehouse_id : String
  pub received_at : String
  pub created_at : String
  pub updated_at : String

pub record CreateSupplierDto : Type 0 where
  pub name : String
  pub contact_email : String
  pub contact_phone : String

pub record CreatePurchaseRequestDto : Type 0 where
  pub requested_by : String
  pub product_id : String
  pub quantity : Option ℤ
  pub reason : String

pub record CreatePurchaseOrderItemDto : Type 0 where
  pub product_id : String
  pub quantity : Option ℤ
  pub unit_price : Option ℤ

pub record CreatePurchaseOrderDto : Type 0 where
  pub supplier_id : String
  pub purchase_request_id : String
  pub items : List CreatePurchaseOrderItemDto
  pub idempotency_key : String

pub record CreateSupplierQuotationDto : Type 0 where
  pub supplier_id : String
  pub product_id : String
  pub unit_price : Option ℤ
  pub valid_until : String

pub record RecordGoodsReceiptDto : Type 0 where
  pub purchase_order_id : String
  pub received_quantity : Option ℤ
  pub warehouse_id : String
  pub received_at : String
