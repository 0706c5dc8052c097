-- ===== src/Inventory/Reserving.antt =====
-- `reserveStock` keeps the inventory consistent.
use autonomous_enterprise.Shared.{
  or_existing, arith, ◌≡◌, refl, ◌≢◌, lookup, insert, All-insert, sum_by, sum_by-insert_new, eq_iff,
  inl, inr, Option-cases, Bool-cases, String, [], ◌∷◌, ◌++◌, none, some, after,
}
use autonomous_enterprise.Shared.Int.{pos, ◌≤ℤ◌, ltb_ℤ, leb_ℤ, int_laws, leb_ℤ→gt, ltb_ℤ→ge}
use autonomous_enterprise.Inventory.Types.{Stock, ReserveStockDto}
use autonomous_enterprise.Inventory.Repository.{InventoryRepository, stock_key, find_stock}
use autonomous_enterprise.Inventory.Stocks.{
  reserved_stock, new_reservation, reservation_movement, reserve_new, reserve_stock,
  reservation_with_key,
}
use autonomous_enterprise.Inventory.Invariant.{
  held, StockAgrees, IsSound, IsConsistent, agrees_update,
}

-- A call of `reserve_new` throws and changes nothing, or writes the stock and the reservation.
pub reserve_new_cases :
    (Q : InventoryRepository → Type 0) (now id move_id : String) (dto : ReserveStockDto)
    (r : InventoryRepository)
    → Q r
    → ((s : Stock)
        → find_stock dto.warehouse_id dto.product_id r ≡ some s
        → pos 1 ≤ℤ dto.quantity
        → dto.quantity ≤ℤ s.available_quantity
        → Q (record r {
          stock_map =
              insert
                (stock_key s.warehouse_id s.product_id)
                (reserved_stock now dto.quantity s)
                r.stock_map;
          reservations = insert id (new_reservation now id dto) r.reservations;
          movements = r.movements ++ reservation_movement now move_id id dto ∷ [];
        }))
    → Q (after (reserve_new now id move_id dto r))
unfolding reserve_new
reserve_new_cases Q now id move_id dto r q step = elim (Bool-cases (leb_ℤ dto.quantity (pos 0))) [
  | inl e ↦ rw e q
  | inr e ↦ elim (Option-cases (find_stock dto.warehouse_id dto.product_id r)) [
    | inl missing ↦ rw (e, missing) q
    | inr (s, found) ↦ elim (Bool-cases (ltb_ℤ s.available_quantity dto.quantity)) [
      | inl less ↦ rw (e, found, less) q
      | inr enough ↦
          rw (e, found, enough)
            (step s found (omega (arith, leb_ℤ→gt dto.quantity (pos 0) e))
              (ltb_ℤ→ge s.available_quantity dto.quantity enough))
    ]
  ]
]

module _ (now id : String) (dto : ReserveStockDto) (r : InventoryRepository) (h : IsConsistent r)
    (fresh : lookup id r.reservations ≡ none) (k : String) (s : Stock)
    (found : find_stock dto.warehouse_id dto.product_id r ≡ some s) where
  reserve_same :
      dto.quantity ≤ℤ s.available_quantity
      → stock_key s.warehouse_id s.product_id ≡ k
      → StockAgrees k
          (some (reserved_stock now dto.quantity s))
          (sum_by (held k) (insert id (new_reservation now id dto) r.reservations))
  unfolding reserved_stock new_reservation
  reserve_same enough e = grind (
    int_laws,
    h.stocks (stock_key dto.warehouse_id dto.product_id),
    eq_iff (stock_key dto.warehouse_id dto.product_id) k,
    sum_by-insert_new (held k) id (new_reservation now id dto) r.reservations fresh,
  )

  reserve_other :
      stock_key s.warehouse_id s.product_id ≢ k
      → sum_by (held k) (insert id (new_reservation now id dto) r.reservations)
        ≡ sum_by (held k) r.reservations
  unfolding new_reservation
  reserve_other ne = grind (
    int_laws,
    h.stocks (stock_key dto.warehouse_id dto.product_id),
    eq_iff (stock_key dto.warehouse_id dto.product_id) k,
    sum_by-insert_new (held k) id (new_reservation now id dto) r.reservations fresh,
  )

reserve_new-IsConsistent :
    (now id move_id : String) (dto : ReserveStockDto) (r : InventoryRepository)
    → IsConsistent r
    → lookup id r.reservations ≡ none
    → IsConsistent (after (reserve_new now id move_id dto r))
unfolding new_reservation
reserve_new-IsConsistent now id move_id dto r h fresh =
    reserve_new_cases IsConsistent now id move_id dto r h λ s found positive enough. record {
      stocks = λ k.
          agrees_update k (stock_key s.warehouse_id s.product_id)
            (reserved_stock now dto.quantity s) r.stock_map _ _ (h.stocks k)
            (reserve_same now id dto r h fresh k s found enough)
            (reserve_other now id dto r h fresh k s found);
      sound =
          All-insert IsSound id (new_reservation now id dto) r.reservations h.sound
            (refl, positive);
    }

pub reserve_stock-IsConsistent :
    (now id move_id : String) (dto : ReserveStockDto) (r : InventoryRepository)
    → IsConsistent r
    → lookup id r.reservations ≡ none
    → IsConsistent (after (reserve_stock now id move_id dto r))
unfolding reserve_stock
reserve_stock-IsConsistent now id move_id dto r h fresh =
    elim (Option-cases (reservation_with_key dto.idempotency_key r)) [
      | inl first ↦ rw (first, or_existing) (reserve_new-IsConsistent now id move_id dto r h fresh)
      | inr (x, again) ↦ rw (again, or_existing) h
    ]
