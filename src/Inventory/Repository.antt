-- ===== src/Inventory/Repository.antt =====
-- apps/api/src/modules/inventory/infrastructure/in-memory-inventory.repository.ts: the maps of
-- the class InMemoryInventoryRepository and its methods. A `find` is a function of the state, a
-- write an action. The copies `{ ...x }` are the values themselves: nothing is shared.
use autonomous_enterprise.Shared.{
  Action, modify, pure, ◌>>◌, Store, lookup, insert, values, find_value, filter_by, is_empty,
  String, ◌==◌, ◌<>◌, Bool, ◌&&◌, ◌||◌, Option, List, [], ◌∷◌, ◌++◌,
}
use autonomous_enterprise.Inventory.Types.{
  Product, Warehouse, Stock, StockMovement, StockReservation, ReorderRule,
}

pub record InventoryRepository : Type 0 where
  pub products : Store Product
  pub warehouses : Store Warehouse
  pub stock_map : Store Stock
  pub movements : List StockMovement
  pub reservations : Store StockReservation
  pub reorder_rules : Store ReorderRule

abbrev Repo : Type 0 → Type 0
Repo A = Action InventoryRepository A

abbrev pub create_product : Product → Repo Product
create_product p = do modify (λ r. record r { products = insert p.id p r.products }); pure p

abbrev pub find_product_by_id : String → InventoryRepository → Option Product
find_product_by_id id r = lookup id r.products

abbrev pub find_product_by_sku : String → InventoryRepository → Option Product
find_product_by_sku sku r = find_value (λ p. p.sku == sku) r.products

abbrev pub find_all_products : InventoryRepository → List Product
find_all_products r = values r.products

abbrev pub create_warehouse : Warehouse → Repo Warehouse
create_warehouse w = do modify (λ r. record r { warehouses = insert w.id w r.warehouses }); pure w

abbrev pub find_warehouse_by_id : String → InventoryRepository → Option Warehouse
find_warehouse_by_id id r = lookup id r.warehouses

abbrev pub find_all_warehouses : InventoryRepository → List Warehouse
find_all_warehouses r = values r.warehouses

-- The key of `stockMap`.
unfoldable pub stock_key : String → String → String
stock_key warehouse_id product_id = warehouse_id <> ":" <> product_id

abbrev pub set_stock : Stock → Repo Stock
set_stock s = do
  modify
      (λ r. record r { stock_map = insert (stock_key s.warehouse_id s.product_id) s r.stock_map })
  pure s

abbrev pub find_stock : String → String → InventoryRepository → Option Stock
find_stock warehouse_id product_id r = lookup (stock_key warehouse_id product_id) r.stock_map

abbrev pub find_all_stock : InventoryRepository → List Stock
find_all_stock r = values r.stock_map

abbrev pub create_movement : StockMovement → Repo StockMovement
create_movement m = do modify (λ r. record r { movements = r.movements ++ m ∷ [] }); pure m

-- Two filters that an empty argument leaves out.
unfoldable pub is_selected : String → String → String → String → Bool
is_selected warehouse_id product_id w p =
    (is_empty warehouse_id || w == warehouse_id) && (is_empty product_id || p == product_id)

abbrev pub find_movements : String → String → InventoryRepository → List StockMovement
find_movements warehouse_id product_id r =
    filter_by (λ m. is_selected warehouse_id product_id m.warehouse_id m.product_id) r.movements

abbrev pub find_reservation_by_id : String → InventoryRepository → Option StockReservation
find_reservation_by_id id r = lookup id r.reservations

abbrev pub find_reservation_by_idempotency_key :
    String → InventoryRepository → Option StockReservation
find_reservation_by_idempotency_key key r =
    find_value (λ x. x.idempotency_key == key) r.reservations

abbrev pub save_reservation : StockReservation → Repo StockReservation
save_reservation x = do
  modify (λ r. record r { reservations = insert x.id x r.reservations })
  pure x

abbrev pub find_all_reservations : InventoryRepository → List StockReservation
find_all_reservations r = values r.reservations

abbrev pub create_reorder_rule : ReorderRule → Repo ReorderRule
create_reorder_rule x = do
  modify (λ r. record r { reorder_rules = insert x.id x r.reorder_rules })
  pure x

abbrev pub find_reorder_rules : String → String → InventoryRepository → List ReorderRule
find_reorder_rules warehouse_id product_id r =
    filter_by (λ x. is_selected warehouse_id product_id x.warehouse_id x.product_id)
      (values r.reorder_rules)
