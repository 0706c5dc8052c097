-- ===== src/Inventory/Repeating.antt =====
-- `reserveStock` with an idempotency key, and `cancelReservation` after it.
use autonomous_enterprise.Shared.{
  arith, ◌≡◌, find_value-insert, lookup-insert_self, insert, inl, inr, Option-cases, String, ◌==◌,
  eq_iff, is_empty, none, some, false, ok, after, or_existing, lookup, sum_by, sum_by_nonneg, refl,
  ap, ◌∙◌,
}
use autonomous_enterprise.Shared.Int.{ℤ, pos, int_laws, ◌+ℤ◌, ◌-ℤ◌, max_ℤ, ◌≤ℤ◌}
use autonomous_enterprise.Inventory.Types.{Stock, StockReservation, ReserveStockDto}
use autonomous_enterprise.Inventory.Repository.{
  InventoryRepository, stock_key, find_stock, find_reservation_by_idempotency_key,
}
use autonomous_enterprise.Inventory.Stocks.{
  reserve_new, new_reservation, reserved_stock, is_cancelled, released_stock, reserve_stock,
  reservation_with_key, cancel_reservation,
}
use autonomous_enterprise.Inventory.Invariant.{StockAgrees, IsConsistent, held, held_nonneg}

-- A first call with a key stores a reservation that the key finds.
reserve_new_found :
    (now id move_id : String) (dto : ReserveStockDto) (r t : InventoryRepository)
    (x : StockReservation)
    → find_reservation_by_idempotency_key dto.idempotency_key r ≡ none
    → reserve_new now id move_id dto r ≡ (ok x, t)
    → find_reservation_by_idempotency_key dto.idempotency_key t ≡ some x
unfolding reserve_new
reserve_new_found now id move_id dto r t x new done = ground (
  arith,
  find_value-insert (λ y. y.idempotency_key == dto.idempotency_key) id x r.reservations,
  eq_iff dto.idempotency_key dto.idempotency_key,
)

-- Once a call of `reserveStock` with a non-empty idempotency key has returned a reservation, a
-- next call with the key returns the same reservation and changes nothing, whatever else it asks.
pub reserve_stock-again :
    (now id move_id later id' move_id' : String) (dto dto' : ReserveStockDto)
    (r t : InventoryRepository) (x : StockReservation)
    → is_empty dto.idempotency_key ≡ false
    → dto'.idempotency_key ≡ dto.idempotency_key
    → reserve_stock now id move_id dto r ≡ (ok x, t)
    → reserve_stock later id' move_id' dto' t ≡ (ok x, t)
unfolding reserve_stock
reserve_stock-again now id move_id later id' move_id' dto dto' r t x keyed same done =
    elim (Option-cases (find_reservation_by_idempotency_key dto.idempotency_key r)) [
      | inl new ↦ ground (arith, reserve_new_found now id move_id dto r t x new)
      | inr (y, old) ↦ ground arith
    ]

-- What a successful new reservation leaves under its stock key and its identifier.
reserve_new_written :
    (now id move_id : String) (dto : ReserveStockDto) (r t : InventoryRepository)
    (x : StockReservation) (s : Stock)
    → find_stock dto.warehouse_id dto.product_id r ≡ some s
    → reserve_new now id move_id dto r ≡ (ok x, t)
    → (x ≡ new_reservation now id dto)
      × (t.reservations ≡ insert id (new_reservation now id dto) r.reservations)
      × (t.stock_map
          ≡ insert
              (stock_key s.warehouse_id s.product_id)
              (reserved_stock now dto.quantity s)
              r.stock_map)
unfolding reserve_new
reserve_new_written now id move_id dto r t x s found done = ground arith

-- A call of `cancelReservation` on an active reservation.
cancel_written :
    (now id : String) (r : InventoryRepository) (x : StockReservation) (s : Stock)
    → lookup id r.reservations ≡ some x
    → is_cancelled x.status ≡ false
    → find_stock x.warehouse_id x.product_id r ≡ some s
    → stock_key s.warehouse_id s.product_id ≡ stock_key x.warehouse_id x.product_id
    → find_stock x.warehouse_id x.product_id (after (cancel_reservation now id r))
      ≡ some (released_stock now x.quantity s)
unfolding cancel_reservation
cancel_written now id r x s e active found key =
    rw (e, active, found, key) (lookup-insert_self _ _ r.stock_map)

-- Giving back what was just reserved restores a consistent stock record but for its time stamp.
released-reserved :
    (now later : String) (quantity : ℤ) (s : Stock)
    → pos 0 ≤ℤ s.reserved_quantity
    → s.available_quantity ≡ s.quantity -ℤ s.reserved_quantity
    → released_stock later quantity (reserved_stock now quantity s)
      ≡ record s { updated_at = later }
unfolding released_stock reserved_stock
released-reserved now later quantity s natural agrees =
    let back : s.reserved_quantity +ℤ quantity -ℤ quantity ≡ s.reserved_quantity = omega int_laws in
    let same : max_ℤ (pos 0) s.reserved_quantity ≡ s.reserved_quantity = ground arith in
    rw (back, same) (cc)

-- A new reservation and its cancellation restore the stock record of the warehouse and the
-- product in a consistent inventory: only the time stamp differs. The reservation repeats no
-- idempotency key.
pub reserve-cancel_restores :
    (now id move_id later : String) (dto : ReserveStockDto) (r t : InventoryRepository)
    (x : StockReservation) (s : Stock)
    → IsConsistent r
    → find_stock dto.warehouse_id dto.product_id r ≡ some s
    → reservation_with_key dto.idempotency_key r ≡ none
    → reserve_stock now id move_id dto r ≡ (ok x, t)
    → find_stock dto.warehouse_id dto.product_id (after (cancel_reservation later id t))
      ≡ some (record s { updated_at = later })
unfolding reserve_stock new_reservation reserved_stock
reserve-cancel_restores now id move_id later dto r t x s h found new done =
    let fresh : reserve_new now id move_id dto r ≡ (ok x, t) = rw (new, or_existing) at done in
    let (ex, er, es) = reserve_new_written now id move_id dto r t x s found fresh in
    let k = stock_key dto.warehouse_id dto.product_id in
    let x' = new_reservation now id dto in
    let s' = reserved_stock now dto.quantity s in
    let agrees : StockAgrees k (some s) (sum_by (held k) r.reservations) =
      rw found at (h.stocks k) in
    let at_id : lookup id t.reservations ≡ some x' =
      rw er (lookup-insert_self id x' r.reservations) in
    let written : find_stock dto.warehouse_id dto.product_id t ≡ some s' =
      rw (es, agrees.0) (lookup-insert_self k s' r.stock_map) in
    let natural : pos 0 ≤ℤ s.reserved_quantity =
      rw agrees.1 (sum_by_nonneg (held k) r.reservations (held_nonneg k r.reservations h.sound)) in
    cancel_written later id t x' s' at_id refl written agrees.0
    ∙ ap some (released-reserved now later dto.quantity s natural agrees.2)
