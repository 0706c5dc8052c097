-- ===== src/Inventory/Examples.antt =====
-- Runs of the inventory service on a small warehouse.
use autonomous_enterprise.Shared.{
  ◌≡◌, refl, String, ok, err, lookup, insert, some, none, true, false, after, result, find_value,
  find_value, Error,
}
use autonomous_enterprise.Shared.Int.{ℤ, pos, ◌-ℤ◌}
use autonomous_enterprise.Inventory.Types.{
  CreateProductDto, CreateWarehouseDto, SetStockDto, ReserveStockDto, Stock, AvailabilityResult,
}
use autonomous_enterprise.Inventory.Repository.{InventoryRepository, stock_key, find_stock}
use autonomous_enterprise.Inventory.Catalogue.{create_product, create_warehouse}
use autonomous_enterprise.Inventory.Stocks.{
  set_stock, reserve_stock, reserve_new, cancel_reservation, new_reservation, reservation_with_key,
  check_availability, counted_stock,
}
use autonomous_enterprise.Inventory.Invariant.{IsConsistent}
use autonomous_enterprise.Inventory.Traces.{
  empty_inventory, creates_product, creates_warehouse, sets_stock, reserves, cancels, Reach, start,
  next, Reach-IsConsistent,
}
use autonomous_enterprise.Inventory.Repeating.{reserve_stock-again, reserve-cancel_restores}
use autonomous_enterprise.Inventory.Availability.{reserve_available, reserve_unavailable}
use autonomous_enterprise.Inventory.Ledger.{LedgerStep, ledger}
use autonomous_enterprise.Inventory.Refining.{Step-refines}

abbrev product : CreateProductDto
product = record { sku = "A-1"; name = "Anvil"; description = ""; price = some (pos 5) }

abbrev warehouse : CreateWarehouseDto
warehouse = record { code = "N"; name = "North"; location = "" }

abbrev count : SetStockDto
count = record { warehouse_id = "w"; product_id = "p"; quantity = pos 10; notes = "" }

abbrev order : ReserveStockDto
order = record {
  warehouse_id = "w";
  product_id = "p";
  quantity = pos 4;
  idempotency_key = "k";
  expires_at = "";
}

abbrev large_order : ReserveStockDto
large_order = record order { quantity = pos 40; idempotency_key = "" }

abbrev no_text : ℤ → String
no_text a = ""

abbrev with_product : InventoryRepository
with_product = after (create_product "t1" "p" product empty_inventory)

abbrev with_warehouse : InventoryRepository
with_warehouse = after (create_warehouse "t2" "w" warehouse with_product)

abbrev stocked : InventoryRepository
stocked = after (set_stock no_text "t3" "s" "m" count with_warehouse)

abbrev reserved : InventoryRepository
reserved = after (reserve_stock "t4" "x" "m2" order stocked)

stocked-Reach : Reach stocked
stocked-Reach =
    next
      (next (next start (creates_product "t1" "p" product)) (creates_warehouse "t2" "w" warehouse))
      (sets_stock no_text "t3" "s" "m" count)

reserved-Reach : Reach reserved
unfolding empty_inventory create_product create_warehouse set_stock counted_stock reserve_stock
    reserve_new new_reservation check_availability lookup insert stock_key find_value ◌-ℤ◌
reserved-Reach = next stocked-Reach (reserves "t4" "x" "m2" order refl)

Reach-IsConsistent_example : IsConsistent (after (cancel_reservation "t5" "x" reserved))
Reach-IsConsistent_example = Reach-IsConsistent (next reserved-Reach (cancels "t5" "x"))

reserve_runs :
    reserve_stock "t4" "x" "m2" order stocked ≡ (ok (new_reservation "t4" "x" order), reserved)
unfolding empty_inventory create_product create_warehouse set_stock counted_stock reserve_stock
    reserve_new new_reservation check_availability lookup insert stock_key find_value ◌-ℤ◌
reserve_runs = refl

reserve_stock-again_example :
    reserve_stock "t6" "y" "m3" order reserved ≡ (ok (new_reservation "t4" "x" order), reserved)
reserve_stock-again_example =
    reserve_stock-again "t4" "x" "m2" "t6" "y" "m3" order order stocked reserved
      (new_reservation "t4" "x" order) refl refl reserve_runs

abbrev shelf : Stock
shelf = counted_stock "t3" "s" count none

stocked-found : find_stock "w" "p" stocked ≡ some shelf
unfolding empty_inventory create_product create_warehouse set_stock counted_stock reserve_stock
    reserve_new new_reservation check_availability lookup insert stock_key find_value ◌-ℤ◌
stocked-found = refl

stocked-new : reservation_with_key "k" stocked ≡ none
unfolding empty_inventory create_product create_warehouse set_stock counted_stock reserve_stock
    reserve_new new_reservation check_availability lookup insert stock_key find_value ◌-ℤ◌
stocked-new = refl

reserve-cancel_restores_example :
    find_stock "w" "p" (after (cancel_reservation "t5" "x" reserved))
    ≡ some (record shelf { updated_at = "t5" })
reserve-cancel_restores_example =
    reserve-cancel_restores "t4" "x" "m2" "t5" order stocked reserved
      (new_reservation "t4" "x" order) shelf (Reach-IsConsistent stocked-Reach) stocked-found
      stocked-new reserve_runs

abbrev free : AvailabilityResult
free = record {
  product_id = "p";
  warehouse_id = "w";
  available_quantity = pos 10;
  requested_quantity = pos 4;
  is_available = true;
}

checked : result (check_availability "w" "p" (pos 4) stocked) ≡ ok free
unfolding empty_inventory create_product create_warehouse set_stock counted_stock reserve_stock
    reserve_new new_reservation check_availability lookup insert stock_key find_value ◌-ℤ◌
checked = refl

reserve_available_example :
    result (reserve_stock "t4" "x" "m2" order stocked) ≡ ok (new_reservation "t4" "x" order)
reserve_available_example =
    reserve_available "t4" "x" "m2" order stocked free stocked-new checked refl

abbrev short : AvailabilityResult
short = record free { requested_quantity = pos 40; is_available = false }

large_order_checked : result (check_availability "w" "p" (pos 40) stocked) ≡ ok short
unfolding empty_inventory create_product create_warehouse set_stock counted_stock reserve_stock
    reserve_new new_reservation check_availability lookup insert stock_key find_value ◌-ℤ◌
large_order_checked = refl

reserve_unavailable_example :
    (x : Error) × (reserve_stock "t4" "x" "m2" large_order stocked ≡ (err x, stocked))
reserve_unavailable_example =
    reserve_unavailable "t4" "x" "m2" large_order stocked short refl large_order_checked refl

stocked-fresh : lookup "x" stocked.reservations ≡ none
unfolding empty_inventory create_product create_warehouse set_stock counted_stock lookup insert
    stock_key ◌-ℤ◌ find_value
stocked-fresh = refl

Step-refines_example :
    LedgerStep (ledger stocked) (ledger (after (reserve_stock "t4" "x" "m2" order stocked)))
Step-refines_example = Step-refines stocked-Reach (reserves "t4" "x" "m2" order stocked-fresh)
