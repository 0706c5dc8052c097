-- ===== src/Inventory/Counting.antt =====
-- `setStock`: a physical count keeps the inventory consistent.
use autonomous_enterprise.Shared.{
  ◌≡◌, refl, lookup, insert, sum_by, inl, inr, Option-cases, Bool-cases, String, ◌||◌, is_empty,
  List, some, after,
}
use autonomous_enterprise.Shared.Int.{ℤ, pos, ◌-ℤ◌, ◌≤ℤ◌, ltb_ℤ, is_zero, int_laws, ltb_ℤ→ge}
use autonomous_enterprise.Inventory.Types.{StockMovement, SetStockDto}
use autonomous_enterprise.Inventory.Repository.{InventoryRepository, stock_key, find_stock}
use autonomous_enterprise.Inventory.Stocks.{old_quantity, old_reserved, counted_stock, set_stock}
use autonomous_enterprise.Inventory.Invariant.{held, StockAgrees, IsConsistent, agrees_update}

-- A call throws and changes nothing, or writes the stock and perhaps a movement.
pub set_stock_cases :
    (Q : InventoryRepository → Type 0) (number_text : ℤ → String) (now id move_id : String)
    (dto : SetStockDto) (r : InventoryRepository)
    → let existing = find_stock dto.warehouse_id dto.product_id r in
      Q r
      → ((ms : List StockMovement)
          → pos 0 ≤ℤ dto.quantity
          → old_reserved existing ≤ℤ dto.quantity
          → Q (record r {
            stock_map =
                insert
                  (stock_key dto.warehouse_id dto.product_id)
                  (counted_stock now id dto existing)
                  r.stock_map;
            movements = ms;
          }))
      → Q (after (set_stock number_text now id move_id dto r))
unfolding set_stock
set_stock_cases Q number_text now id move_id dto r q step =
    let existing = find_stock dto.warehouse_id dto.product_id r in
    elim (Bool-cases (is_empty dto.warehouse_id || is_empty dto.product_id)) [
      | inl e ↦ rw e q
      | inr e ↦ elim (Bool-cases (ltb_ℤ dto.quantity (pos 0))) [
        | inl negative ↦ rw (e, negative) q
        | inr natural ↦ elim (Option-cases (lookup dto.warehouse_id r.warehouses)) [
          | inl unknown ↦ rw (e, natural, unknown) q
          | inr (w, ew) ↦ elim (Option-cases (lookup dto.product_id r.products)) [
            | inl unknown ↦ rw (e, natural, ew, unknown) q
            | inr (p, ep) ↦ elim (Bool-cases (ltb_ℤ dto.quantity (old_reserved existing))) [
              | inl below ↦ rw (e, natural, ew, ep, below) q
              | inr above ↦
                  let lower = ltb_ℤ→ge dto.quantity (pos 0) natural in
                  let room = ltb_ℤ→ge dto.quantity (old_reserved existing) above in
                  elim (Bool-cases (is_zero (dto.quantity -ℤ old_quantity existing))) [
                    | inl kept ↦ rw (e, natural, ew, ep, above, kept) (step _ lower room)
                    | inr moved ↦ rw (e, natural, ew, ep, above, moved) (step _ lower room)
                  ]
            ]
          ]
        ]
      ]
    ]

set_stock_same :
    (now id : String) (dto : SetStockDto) (r : InventoryRepository)
    → IsConsistent r
    → (k : String) → old_reserved (find_stock dto.warehouse_id dto.product_id r) ≤ℤ dto.quantity
    → stock_key dto.warehouse_id dto.product_id ≡ k
    → StockAgrees k
        (some (counted_stock now id dto (find_stock dto.warehouse_id dto.product_id r)))
        (sum_by (held k) r.reservations)
unfolding counted_stock
set_stock_same now id dto r h k above e = elim (Option-cases (lookup k r.stock_map)) [
  | inl missing ↦ grind (int_laws, h.stocks k)
  | inr (s, found) ↦ grind (int_laws, h.stocks k)
]

pub set_stock-IsConsistent :
    (number_text : ℤ → String) (now id move_id : String) (dto : SetStockDto)
    (r : InventoryRepository)
    → IsConsistent r
    → IsConsistent (after (set_stock number_text now id move_id dto r))
set_stock-IsConsistent number_text now id move_id dto r h =
    set_stock_cases IsConsistent number_text now id move_id dto r h λ ms natural above. record {
      stocks = λ k.
          agrees_update k (stock_key dto.warehouse_id dto.product_id)
            (counted_stock now id dto (find_stock dto.warehouse_id dto.product_id r)) r.stock_map _
            _ (h.stocks k) (set_stock_same now id dto r h k above) (λ ne. refl);
      sound = h.sound;
    }
