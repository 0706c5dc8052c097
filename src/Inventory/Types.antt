-- ===== src/Inventory/Types.antt =====
-- apps/api/src/modules/inventory/domain/inventory.types.ts and the DTO classes of
-- apps/api/src/modules/inventory/dto. An absent optional text is the empty text.
use autonomous_enterprise.Shared.{Bool, Option, String}
use autonomous_enterprise.Shared.Int.{ℤ}

pub record Product : Type 0 where
  pub id : String
  pub sku : String
  pub name : String
  pub description : String
  pub price : ℤ
  pub created_at : String
  pub updated_at : String

pub record Warehouse : Type 0 where
  pub id : String
  pub code : String
  pub name : String
  pub location : String
  pub created_at : String
  pub updated_at : String

pub record Stock : Type 0 where
  pub id : String
  pub warehouse_id : String
  pub product_id : String
  pub quantity : ℤ
  pub reserved_quantity : ℤ
  pub available_quantity : ℤ
  pub updated_at : String

pub data StockMovementType : Type 0 where
  in_ out adjustment reservation release inbound outbound transfer : StockMovementType

pub record StockMovement : Type 0 where
  pub id : String
  pub warehouse_id : String
  pub product_id : String
  pub type : StockMovementType
  pub quantity : ℤ
  pub reference : String
  pub notes : String
  pub created_at : String

pub data StockReservationStatus : Type 0 where
  pending fulfilled cancelled confirmed released : StockReservationStatus

pub record StockReservation : Type 0 where
  pub id : String
  pub warehouse_id : String
  pub product_id : String
  pub quantity : ℤ
  pub status : StockReservationStatus
  pub idempotency_key : String
  pub expires_at : String
  pub created_at : String
  pub updated_at : String

pub record ReorderRule : Type 0 where
  pub id : String
  pub warehouse_id : String
  pub product_id : String
  pub min_quantity : ℤ
  pub reorder_quantity : ℤ
  pub created_at : String
  pub updated_at : String

pub record AvailabilityResult : Type 0 where
  pub product_id : String
  pub warehouse_id : String
  pub available_quantity : ℤ
  pub requested_quantity : ℤ
  pub is_available : Bool

pub record CreateProductDto : Type 0 where
  pub sku : String
  pub name : String
  pub description : String
  pub price : Option ℤ

pub record CreateWarehouseDto : Type 0 where
  pub code : String
  pub name : String
  pub location : String

pub record SetStockDto : Type 0 where
  pub warehouse_id : String
  pub product_id : String
  pub quantity : ℤ
  pub notes : String

pub record ReserveStockDto : Type 0 where
  pub warehouse_id : String
  pub product_id : String
  pub quantity : ℤ
  pub idempotency_key : String
  pub expires_at : String

pub record CreateReorderRuleDto : Type 0 where
  pub warehouse_id : String
  pub product_id : String
  pub min_quantity : ℤ
  pub reorder_quantity : ℤ
