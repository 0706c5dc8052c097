-- ===== src/Inventory/Stocks.antt =====
-- apps/api/src/modules/inventory/inventory.service.ts: setStock, checkAvailability,
-- reserveStock and cancelReservation of the class InventoryService, over the repository's state. `now` is the clock's text; `id` and the like are the texts that
-- `Date.now()` and `Math.random()` make up; `number_text` prints a number in a template literal.
use autonomous_enterprise.Shared.{
  Action, not_found, bad_request, pure, gets, or_throw, or_existing, throw_if, run_if, ◌>>=◌, ◌>>◌,
  is_empty, true, false, String, ◌<>◌, Bool, not, ◌||◌, Option, none, some, if◌then◌else◌, ⊤,
}
use autonomous_enterprise.Shared.Int.{ℤ, pos, ◌+ℤ◌, ◌-ℤ◌, ltb_ℤ, leb_ℤ, max_ℤ, abs, is_zero}
use autonomous_enterprise.Inventory.Types.{
  Stock, StockMovementType, StockMovement, StockReservationStatus, StockReservation,
  AvailabilityResult, SetStockDto, ReserveStockDto,
}
use autonomous_enterprise.Inventory.Repository
use autonomous_enterprise.Inventory.Repository.{InventoryRepository}

abbrev Inv : Type 0 → Type 0
Inv A = Action InventoryRepository A

-- `existingStock ? existingStock.quantity : 0`, and the same of `reservedQuantity`.
abbrev pub old_quantity : Option Stock → ℤ
old_quantity none = pos 0
old_quantity (some s) = s.quantity

abbrev pub old_reserved : Option Stock → ℤ
old_reserved none = pos 0
old_reserved (some s) = s.reserved_quantity

abbrev stock_id : Option Stock → String → String
stock_id none id = id
stock_id (some s) id = s.id

-- The movement that `setStock` writes down when the quantity has changed.
unfoldable pub adjustment_movement :
    (ℤ → String) → String → String → SetStockDto → ℤ → StockMovement
adjustment_movement number_text now move_id dto old =
    let diff = dto.quantity -ℤ old in
    record {
      id = move_id;
      warehouse_id = dto.warehouse_id;
      product_id = dto.product_id;
      type = if ltb_ℤ (pos 0) diff then StockMovementType.in_ else StockMovementType.out;
      quantity = pos (abs diff);
      reference = "MANUAL_SET_STOCK";
      notes =
          "Physical count adjustment from "
          <> number_text old
          <> " to "
          <> number_text dto.quantity;
      created_at = now;
    }

-- The stock record that `setStock` writes.
unfoldable pub counted_stock : String → String → SetStockDto → Option Stock → Stock
counted_stock now id dto existing = record {
  id = stock_id existing id;
  warehouse_id = dto.warehouse_id;
  product_id = dto.product_id;
  quantity = dto.quantity;
  reserved_quantity = old_reserved existing;
  available_quantity = dto.quantity -ℤ old_reserved existing;
  updated_at = now;
}

unfoldable pub set_stock : (ℤ → String) → String → String → String → SetStockDto → Inv Stock
unfolding counted_stock
set_stock number_text now id move_id dto = do
  throw_if (is_empty dto.warehouse_id || is_empty dto.product_id)
      (bad_request "Warehouse ID and Product ID are required")
  throw_if (ltb_ℤ dto.quantity (pos 0)) (bad_request "Stock quantity cannot be negative")
  warehouse ← gets (Repository.find_warehouse_by_id dto.warehouse_id)
  or_throw warehouse (not_found "Warehouse" dto.warehouse_id)
  product ← gets (Repository.find_product_by_id dto.product_id)
  or_throw product (not_found "Product" dto.product_id)
  existing ← gets (Repository.find_stock dto.warehouse_id dto.product_id)
  throw_if (ltb_ℤ dto.quantity (old_reserved existing))
      (bad_request "Cannot set physical stock below currently reserved quantity")
  saved ← Repository.set_stock (counted_stock now id dto existing)
  run_if (not (is_zero (dto.quantity -ℤ old_quantity existing))) (
      Repository.create_movement
        (adjustment_movement number_text now move_id dto (old_quantity existing))
      >> pure tt)
  pure saved

abbrev pub available : Option Stock → ℤ
available none = pos 0
available (some s) = s.available_quantity

unfoldable pub check_availability : String → String → ℤ → Inv AvailabilityResult
check_availability warehouse_id product_id requested = do
  throw_if (leb_ℤ requested (pos 0)) (bad_request "Requested quantity must be positive")
  stock ← gets (Repository.find_stock warehouse_id product_id)
  pure (record {
    product_id = product_id;
    warehouse_id = warehouse_id;
    available_quantity = available stock;
    requested_quantity = requested;
    is_available = leb_ℤ requested (available stock);
  })

-- The stock after `quantity` more are reserved.
unfoldable pub reserved_stock : String → ℤ → Stock → Stock
reserved_stock now quantity stock =
    let reserved = stock.reserved_quantity +ℤ quantity in
    record stock {
      reserved_quantity = reserved;
      available_quantity = stock.quantity -ℤ reserved;
      updated_at = now;
    }

unfoldable pub new_reservation : String → String → ReserveStockDto → StockReservation
new_reservation now id dto = record {
  id = id;
  warehouse_id = dto.warehouse_id;
  product_id = dto.product_id;
  quantity = dto.quantity;
  status = StockReservationStatus.pending;
  idempotency_key = dto.idempotency_key;
  expires_at = dto.expires_at;
  created_at = now;
  updated_at = now;
}

unfoldable pub reservation_movement : String → String → String → ReserveStockDto → StockMovement
reservation_movement now move_id reservation_id dto = record {
  id = move_id;
  warehouse_id = dto.warehouse_id;
  product_id = dto.product_id;
  type = StockMovementType.reservation;
  quantity = dto.quantity;
  reference = reservation_id;
  notes = "Stock reserved via reservation [" <> reservation_id <> "]";
  created_at = now;
}

-- `reserveStock` once no reservation has the idempotency key.
unfoldable pub reserve_new : String → String → String → ReserveStockDto → Inv StockReservation
unfolding reserved_stock new_reservation reservation_movement
reserve_new now id move_id dto = do
  throw_if (leb_ℤ dto.quantity (pos 0))
      (bad_request "Reservation quantity must be greater than zero")
  found ← gets (Repository.find_stock dto.warehouse_id dto.product_id)
  stock ← or_throw found (not_found "Stock" dto.product_id)
  throw_if (ltb_ℤ stock.available_quantity dto.quantity)
      (bad_request "Insufficient available stock for reservation")
  Repository.set_stock (reserved_stock now dto.quantity stock)
  saved ← Repository.save_reservation (new_reservation now id dto)
  Repository.create_movement (reservation_movement now move_id saved.id dto)
  pure saved

abbrev pub reservation_with_key : String → InventoryRepository → Option StockReservation
reservation_with_key key r =
    if is_empty key then none else Repository.find_reservation_by_idempotency_key key r

unfoldable pub reserve_stock : String → String → String → ReserveStockDto → Inv StockReservation
unfolding reserve_new
reserve_stock now id move_id dto = do
  existing ← gets (reservation_with_key dto.idempotency_key)
  or_existing existing (reserve_new now id move_id dto)

abbrev pub is_cancelled : StockReservationStatus → Bool
is_cancelled StockReservationStatus.cancelled = true
is_cancelled _ = false

-- The stock after `quantity` reserved items are given back.
unfoldable pub released_stock : String → ℤ → Stock → Stock
released_stock now quantity stock =
    let reserved = max_ℤ (pos 0) (stock.reserved_quantity -ℤ quantity) in
    record stock {
      reserved_quantity = reserved;
      available_quantity = stock.quantity -ℤ reserved;
      updated_at = now;
    }

abbrev release_stock : String → ℤ → Option Stock → Inv ⊤
release_stock now quantity none = pure tt
release_stock now quantity (some stock) =
    Repository.set_stock (released_stock now quantity stock) >> pure tt

unfoldable pub cancelled_reservation : String → StockReservation → StockReservation
cancelled_reservation now x = record x {
  status = StockReservationStatus.cancelled;
  updated_at = now;
}

unfoldable pub cancel_reservation : String → String → Inv StockReservation
unfolding released_stock cancelled_reservation
cancel_reservation now id = do
  found ← gets (Repository.find_reservation_by_id id)
  x ← or_throw found (not_found "StockReservation" id)
  if is_cancelled x.status then pure x else (do
    stock ← gets (Repository.find_stock x.warehouse_id x.product_id)
    release_stock now x.quantity stock
    Repository.save_reservation (cancelled_reservation now x))
