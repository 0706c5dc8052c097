-- ===== src/Inventory/Traces.antt =====
-- The inventory under any sequence of service calls.
use autonomous_enterprise.Shared.{arith, ◌≡◌, refl, lookup, String, [], none, after}
use autonomous_enterprise.Shared.Int.{ℤ}
use autonomous_enterprise.Inventory.Types.{
  CreateProductDto, CreateWarehouseDto, CreateReorderRuleDto, SetStockDto, ReserveStockDto,
}
use autonomous_enterprise.Inventory.Repository.{InventoryRepository}
use autonomous_enterprise.Inventory.Catalogue.{
  create_product, create_warehouse, create_reorder_rule,
}
use autonomous_enterprise.Inventory.Stocks.{set_stock, reserve_stock, cancel_reservation}
use autonomous_enterprise.Inventory.Invariant.{IsConsistent}
use autonomous_enterprise.Inventory.Reserving.{reserve_stock-IsConsistent}
use autonomous_enterprise.Inventory.Cancelling.{cancel_reservation-IsConsistent}
use autonomous_enterprise.Inventory.Counting.{set_stock-IsConsistent}

-- The repository as it is constructed.
unfoldable pub empty_inventory : InventoryRepository
empty_inventory = record {
  products = [];
  warehouses = [];
  stock_map = [];
  movements = [];
  reservations = [];
  reorder_rules = [];
}

-- One call of the service that may write. The identifier of a new reservation is not in use.
pub data Step (r : InventoryRepository) : InventoryRepository → Type 0 where
  creates_product :
      (now id : String) (dto : CreateProductDto) → Step r (after (create_product now id dto r))
  creates_warehouse :
      (now id : String) (dto : CreateWarehouseDto) → Step r (after (create_warehouse now id dto r))
  creates_rule :
      (now id : String) (dto : CreateReorderRuleDto)
      → Step r (after (create_reorder_rule now id dto r))
  sets_stock :
      (number_text : ℤ → String) (now id move_id : String) (dto : SetStockDto)
      → Step r (after (set_stock number_text now id move_id dto r))
  reserves :
      (now id move_id : String) (dto : ReserveStockDto)
      → lookup id r.reservations ≡ none
      → Step r (after (reserve_stock now id move_id dto r))
  cancels : (now id : String) → Step r (after (cancel_reservation now id r))

pub data Reach : InventoryRepository → Type 0 where
  start : Reach empty_inventory
  next : {r t : InventoryRepository} → Reach r → Step r t → Reach t

-- Only the stock records and the reservations matter to the invariant.
same-IsConsistent :
    (r t : InventoryRepository)
    → IsConsistent r
    → (t.stock_map ≡ r.stock_map) × (t.reservations ≡ r.reservations)
    → IsConsistent t
same-IsConsistent r t h (e, f) = record {
  stocks = λ k. rw (e, f) (h.stocks k);
  sound = rw f h.sound;
}

pub create_product_same :
    (now id : String) (dto : CreateProductDto) (r : InventoryRepository)
    → let t = after (create_product now id dto r) in
      (t.stock_map ≡ r.stock_map) × (t.reservations ≡ r.reservations)
unfolding create_product
create_product_same now id dto r = ground arith

pub create_warehouse_same :
    (now id : String) (dto : CreateWarehouseDto) (r : InventoryRepository)
    → let t = after (create_warehouse now id dto r) in
      (t.stock_map ≡ r.stock_map) × (t.reservations ≡ r.reservations)
unfolding create_warehouse
create_warehouse_same now id dto r = ground arith

Step-IsConsistent : {r t : InventoryRepository} → Step r t → IsConsistent r → IsConsistent t
unfolding create_reorder_rule
Step-IsConsistent {r} (creates_product now id dto) h =
    same-IsConsistent r _ h (create_product_same now id dto r)
Step-IsConsistent {r} (creates_warehouse now id dto) h =
    same-IsConsistent r _ h (create_warehouse_same now id dto r)
Step-IsConsistent (creates_rule now id dto) h = record { stocks = h.stocks; sound = h.sound }
Step-IsConsistent {r} (sets_stock number_text now id move_id dto) h =
    set_stock-IsConsistent number_text now id move_id dto r h
Step-IsConsistent {r} (reserves now id move_id dto fresh) h =
    reserve_stock-IsConsistent now id move_id dto r h fresh
Step-IsConsistent {r} (cancels now id) h = cancel_reservation-IsConsistent now id r h

-- In every inventory that is reached from the empty one by calls of the service, in any order,
-- each stock record's reserved quantity is the sum of the active reservations under its key, is
-- at most its quantity, and its available quantity is the difference.
pub Reach-IsConsistent : {r : InventoryRepository} → Reach r → IsConsistent r
unfolding empty_inventory lookup
Reach-IsConsistent start = record { stocks = λ k. refl; sound = tt }
Reach-IsConsistent (next reach step) = Step-IsConsistent step (Reach-IsConsistent reach)
