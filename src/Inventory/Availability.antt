-- ===== src/Inventory/Availability.antt =====
-- `checkAvailability` and `reserveStock` answer the same question.
use autonomous_enterprise.Shared.{
  arith, ◌≡◌, String, none, true, false, Error, not_found, bad_request, ok, err, result,
  Option-cases, inl, inr, or_existing,
}
use autonomous_enterprise.Inventory.Types.{AvailabilityResult, ReserveStockDto}
use autonomous_enterprise.Inventory.Repository.{InventoryRepository, find_stock}
use autonomous_enterprise.Inventory.Stocks.{
  check_availability, new_reservation, reserve_stock, reservation_with_key,
}

-- Where `checkAvailability` finds the quantity available, a call of `reserveStock` that repeats
-- no idempotency key returns a new pending reservation of it.
pub reserve_available :
    (now id move_id : String) (dto : ReserveStockDto) (r : InventoryRepository)
    (a : AvailabilityResult)
    → reservation_with_key dto.idempotency_key r ≡ none
    → result (check_availability dto.warehouse_id dto.product_id dto.quantity r) ≡ ok a
    → a.is_available ≡ true
    → result (reserve_stock now id move_id dto r) ≡ ok (new_reservation now id dto)
unfolding check_availability reserve_stock new_reservation
reserve_available now id move_id dto r a new asked free =
    rw (new, or_existing)
      (elim (Option-cases (find_stock dto.warehouse_id dto.product_id r)) [
        | inl missing ↦ ground arith
        | inr (s, found) ↦ ground arith
      ])

-- Where `checkAvailability` answers that the quantity is not available, a call of `reserveStock`
-- that repeats no idempotency key throws and changes nothing.
pub reserve_unavailable :
    (now id move_id : String) (dto : ReserveStockDto) (r : InventoryRepository)
    (a : AvailabilityResult)
    → reservation_with_key dto.idempotency_key r ≡ none
    → result (check_availability dto.warehouse_id dto.product_id dto.quantity r) ≡ ok a
    → a.is_available ≡ false
    → (x : Error) × (reserve_stock now id move_id dto r ≡ (err x, r))
unfolding check_availability reserve_stock
reserve_unavailable now id move_id dto r a new asked taken =
    rw (new, or_existing)
      (elim (Option-cases (find_stock dto.warehouse_id dto.product_id r)) [
        | inl missing ↦ (not_found "Stock" dto.product_id, ground arith)
        | inr (s, found) ↦
            (bad_request "Insufficient available stock for reservation", ground arith)
      ])
