-- ===== src/Inventory/Catalogue.antt =====
-- apps/api/src/modules/inventory/inventory.service.ts: the methods of the class InventoryService on
-- products, warehouses and reorder rules, and its listings, over the repository's state. `now` is
-- the clock's text; `id` is the text that `Date.now()` and `Math.random()` make up.
use autonomous_enterprise.Shared.{
  Action, not_found, bad_request, gets, or_throw, throw_if, ◌>>=◌, ◌>>◌, is_empty, is_present,
  or_else, String, ◌||◌, List,
}
use autonomous_enterprise.Shared.Int.{pos, ltb_ℤ}
use autonomous_enterprise.Inventory.Types.{
  Product, Warehouse, StockMovement, StockReservation, ReorderRule, CreateProductDto,
  CreateWarehouseDto, CreateReorderRuleDto,
}
use autonomous_enterprise.Inventory.Repository
use autonomous_enterprise.Inventory.Repository.{InventoryRepository}

abbrev Inv : Type 0 → Type 0
Inv A = Action InventoryRepository A

unfoldable pub create_product : String → String → CreateProductDto → Inv Product
create_product now id dto = do
  throw_if (is_empty dto.sku || is_empty dto.name) (bad_request "Product SKU and name are required")
  throw_if (ltb_ℤ (or_else dto.price (pos 0)) (pos 0))
      (bad_request "Product price cannot be negative")
  existing ← gets (Repository.find_product_by_sku dto.sku)
  throw_if (is_present existing) (bad_request "Product with this SKU already exists")
  Repository.create_product (record {
    id = id;
    sku = dto.sku;
    name = dto.name;
    description = dto.description;
    price = or_else dto.price (pos 0);
    created_at = now;
    updated_at = now;
  })

unfoldable pub get_product : String → Inv Product
get_product id = do or_throw (← gets (Repository.find_product_by_id id)) (not_found "Product" id)

unfoldable pub list_products : Inv (List Product)
list_products = gets Repository.find_all_products

unfoldable pub create_warehouse : String → String → CreateWarehouseDto → Inv Warehouse
create_warehouse now id dto = do
  throw_if (is_empty dto.code || is_empty dto.name)
      (bad_request "Warehouse code and name are required")
  Repository.create_warehouse (record {
    id = id;
    code = dto.code;
    name = dto.name;
    location = dto.location;
    created_at = now;
    updated_at = now;
  })

unfoldable pub get_warehouse : String → Inv Warehouse
get_warehouse id = do
  or_throw (← gets (Repository.find_warehouse_by_id id)) (not_found "Warehouse" id)

unfoldable pub list_warehouses : Inv (List Warehouse)
list_warehouses = gets Repository.find_all_warehouses

unfoldable pub list_reservations : Inv (List StockReservation)
list_reservations = gets Repository.find_all_reservations

unfoldable pub list_movements : String → String → Inv (List StockMovement)
list_movements warehouse_id product_id = gets (Repository.find_movements warehouse_id product_id)

unfoldable pub create_reorder_rule : String → String → CreateReorderRuleDto → Inv ReorderRule
create_reorder_rule now id dto = Repository.create_reorder_rule (record {
  id = id;
  warehouse_id = dto.warehouse_id;
  product_id = dto.product_id;
  min_quantity = dto.min_quantity;
  reorder_quantity = dto.reorder_quantity;
  created_at = now;
  updated_at = now;
})

unfoldable pub list_reorder_rules : String → String → Inv (List ReorderRule)
list_reorder_rules warehouse_id product_id =
    gets (Repository.find_reorder_rules warehouse_id product_id)
