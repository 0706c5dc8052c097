-- ===== src/Inventory/Ledger.antt =====
-- The stock keeping that the inventory promises: per stock key a quantity and how much of it is
-- reserved, and what one operation may do to them.
use autonomous_enterprise.Shared.{
  arith, ◌≡◌, lookup, insert, Store, lookup-insert, String, ◌==◌, Option, none, some, if◌then◌else◌,
}
use autonomous_enterprise.Shared.Int.{ℤ, pos, ◌+ℤ◌, ◌-ℤ◌, ◌≤ℤ◌}
use autonomous_enterprise.Inventory.Types.{Stock}
use autonomous_enterprise.Inventory.Repository.{InventoryRepository, stock_key, find_stock}
use autonomous_enterprise.Inventory.Invariant.{IsConsistent}

-- Per stock key, the quantity and the reserved part of it.
abbrev pub Ledger : Type 0
Ledger = String → ℤ × ℤ

abbrev pub entry : Option Stock → ℤ × ℤ
entry none = (pos 0, pos 0)
entry (some s) = (s.quantity, s.reserved_quantity)

-- The abstract view of a repository.
abbrev pub ledger : InventoryRepository → Ledger
ledger r k = entry (lookup k r.stock_map)

abbrev pub quantity_of : Ledger → String → ℤ
quantity_of f k = (f k).0

abbrev pub reserved_of : Ledger → String → ℤ
reserved_of f k = (f k).1

-- The ledger `g` is `f` with another entry under one key.
abbrev pub Writes : Ledger → String → ℤ → ℤ → Ledger → Type 0
Writes f k quantity reserved g = (j : String) → g j ≡ (if k == j then (quantity, reserved) else f j)

-- One abstract operation.
pub data LedgerStep (f g : Ledger) : Type 0 where
  stays : ((j : String) → g j ≡ f j) → LedgerStep f g
  counts :
      (k : String) (quantity : ℤ)
      → pos 0 ≤ℤ quantity
      → reserved_of f k ≤ℤ quantity
      → Writes f k quantity (reserved_of f k) g
      → LedgerStep f g
  takes :
      (k : String) (n : ℤ)
      → pos 1 ≤ℤ n
      → reserved_of f k +ℤ n ≤ℤ quantity_of f k
      → Writes f k (quantity_of f k) (reserved_of f k +ℤ n) g
      → LedgerStep f g
  gives :
      (k : String) (n : ℤ)
      → pos 1 ≤ℤ n
      → n ≤ℤ reserved_of f k
      → Writes f k (quantity_of f k) (reserved_of f k -ℤ n) g
      → LedgerStep f g

pub entry-insert :
    (k : String) (s : Stock) (m : Store Stock) (quantity reserved : ℤ)
    → s.quantity ≡ quantity
    → s.reserved_quantity ≡ reserved
    → Writes (λ j. entry (lookup j m)) k quantity reserved (λ j. entry (lookup j (insert k s m)))
entry-insert k s m quantity reserved e f j = ground (arith, lookup-insert k j s m)

-- A stock record that is found stands under its own key.
pub stored_entry :
    (w p : String) (r : InventoryRepository) (s : Stock)
    → IsConsistent r
    → find_stock w p r ≡ some s
    → ledger r (stock_key s.warehouse_id s.product_id) ≡ (s.quantity, s.reserved_quantity)
stored_entry w p r s h found = ground (arith, h.stocks (stock_key w p))
