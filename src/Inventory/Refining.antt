-- ===== src/Inventory/Refining.antt =====
-- The service implements the ledger.
use autonomous_enterprise.Shared.{
  arith, ◌≡◌, refl, ap, sym, ◌∙◌, lookup, eq_iff, String, Option, none, some, after, Option-cases,
  inl, inr, or_existing, false,
}
use autonomous_enterprise.Shared.Int.{ℤ, pos, ◌+ℤ◌, ◌-ℤ◌, ◌≤ℤ◌, int_laws, max_ℤ}
use autonomous_enterprise.Inventory.Types.{Stock, StockReservation, ReserveStockDto, SetStockDto}
use autonomous_enterprise.Inventory.Repository.{InventoryRepository, stock_key, find_stock}
use autonomous_enterprise.Inventory.Catalogue.{
  create_product, create_warehouse, create_reorder_rule,
}
use autonomous_enterprise.Inventory.Stocks.{
  old_reserved, counted_stock, reserved_stock, released_stock, is_cancelled, set_stock, reserve_new,
  reserve_stock, reservation_with_key, cancel_reservation,
}
use autonomous_enterprise.Inventory.Invariant.{IsConsistent}
use autonomous_enterprise.Inventory.Reserving.{reserve_new_cases}
use autonomous_enterprise.Inventory.Cancelling.{cancel_reservation_cases, cancelled_total}
use autonomous_enterprise.Inventory.Counting.{set_stock_cases}
use autonomous_enterprise.Inventory.Traces.{
  Step, creates_product, creates_warehouse, creates_rule, sets_stock, reserves, cancels, Reach,
  Reach-IsConsistent, create_product_same, create_warehouse_same,
}
use autonomous_enterprise.Inventory.Ledger.{
  entry, ledger, reserved_of, quantity_of, LedgerStep, stays, counts, takes, gives, entry-insert,
  stored_entry,
}

-- What is reserved of a found stock record, and what is available of it.
stored_agrees :
    (w p : String) (r : InventoryRepository) (s : Stock)
    → IsConsistent r
    → find_stock w p r ≡ some s
    → s.available_quantity ≡ s.quantity -ℤ s.reserved_quantity
stored_agrees w p r s h found = ground (arith, h.stocks (stock_key w p))

room :
    (reserved n quantity available : ℤ)
    → available ≡ quantity -ℤ reserved
    → n ≤ℤ available
    → reserved +ℤ n ≤ℤ quantity
room reserved n quantity available e enough = grind int_laws

reserve_new-refines :
    (now id move_id : String) (dto : ReserveStockDto) (r : InventoryRepository)
    → IsConsistent r
    → LedgerStep (ledger r) (ledger (after (reserve_new now id move_id dto r)))
unfolding reserved_stock
reserve_new-refines now id move_id dto r h =
    reserve_new_cases (λ t. LedgerStep (ledger r) (ledger t)) now id move_id dto r (stays λ j. refl)
      λ s found positive enough.
        let k = stock_key s.warehouse_id s.product_id in
        let e = stored_entry dto.warehouse_id dto.product_id r s h found in
        takes k dto.quantity positive
          (rw (reserved_of, quantity_of, e)
            (room s.reserved_quantity dto.quantity s.quantity s.available_quantity
              (stored_agrees dto.warehouse_id dto.product_id r s h found) enough))
          (entry-insert k (reserved_stock now dto.quantity s) r.stock_map _ _
            (ap (λ p. p.0) (sym e)) (ap (λ p. p.1 +ℤ dto.quantity) (sym e)))

reserve_stock-refines :
    (now id move_id : String) (dto : ReserveStockDto) (r : InventoryRepository)
    → IsConsistent r
    → LedgerStep (ledger r) (ledger (after (reserve_stock now id move_id dto r)))
unfolding reserve_stock
reserve_stock-refines now id move_id dto r h =
    elim (Option-cases (reservation_with_key dto.idempotency_key r)) [
      | inl first ↦ rw (first, or_existing) (reserve_new-refines now id move_id dto r h)
      | inr (x, again) ↦ rw (again, or_existing) (stays λ j. refl)
    ]

old_reserved-entry : (old : Option Stock) → old_reserved old ≡ (entry old).1
old_reserved-entry none = refl
old_reserved-entry (some s) = refl

set_stock-refines :
    (number_text : ℤ → String) (now id move_id : String) (dto : SetStockDto)
    (r : InventoryRepository)
    → LedgerStep (ledger r) (ledger (after (set_stock number_text now id move_id dto r)))
unfolding counted_stock
set_stock-refines number_text now id move_id dto r =
    set_stock_cases (λ t. LedgerStep (ledger r) (ledger t)) number_text now id move_id dto r
      (stays λ j. refl)
      λ ms natural above.
        let k = stock_key dto.warehouse_id dto.product_id in
        let old = lookup k r.stock_map in
        counts k dto.quantity natural (rw⁻¹ (old_reserved-entry old) above) (
          entry-insert k (counted_stock now id dto old) r.stock_map _ _ refl
            (old_reserved-entry old))

-- A reservation that is not cancelled holds no more than is reserved of its stock.
held_quantity :
    (now id : String) (r : InventoryRepository) (x : StockReservation) (s : Stock)
    → IsConsistent r
    → lookup id r.reservations ≡ some x
    → is_cancelled x.status ≡ false
    → find_stock x.warehouse_id x.product_id r ≡ some s
    → (pos 1 ≤ℤ x.quantity) × (x.quantity ≤ℤ s.reserved_quantity)
held_quantity now id r x s h at_id active found = grind (
  int_laws,
  cancelled_total now id r h x at_id (stock_key x.warehouse_id x.product_id) active,
  h.stocks (stock_key x.warehouse_id x.product_id),
  eq_iff (stock_key x.warehouse_id x.product_id) (stock_key x.warehouse_id x.product_id),
)

released : (reserved n : ℤ) → n ≤ℤ reserved → max_ℤ (pos 0) (reserved -ℤ n) ≡ reserved -ℤ n
released reserved n h = grind int_laws

cancel_reservation-refines :
    (now id : String) (r : InventoryRepository)
    → IsConsistent r
    → LedgerStep (ledger r) (ledger (after (cancel_reservation now id r)))
unfolding released_stock
cancel_reservation-refines now id r h =
    cancel_reservation_cases (λ t. LedgerStep (ledger r) (ledger t)) now id r (stays λ j. refl)
      (λ x at_id active missing. stays λ j. refl)
      λ x s at_id active found.
        let k = stock_key s.warehouse_id s.product_id in
        let e = stored_entry x.warehouse_id x.product_id r s h found in
        let (positive, enough) = held_quantity now id r x s h at_id active found in
        gives k x.quantity positive (rw (reserved_of, e) enough) (
          entry-insert k (released_stock now x.quantity s) r.stock_map _ _ (ap (λ p. p.0) (sym e))
            (released s.reserved_quantity x.quantity enough ∙ ap (λ p. p.1 -ℤ x.quantity) (sym e)))

same-ledger :
    (r t : InventoryRepository) → t.stock_map ≡ r.stock_map → LedgerStep (ledger r) (ledger t)
same-ledger r t e = stays λ j. ap (λ m. entry (lookup j m)) e

-- The inventory implements a ledger that maps each stock key to a quantity and a reserved part of
-- it, both 0 for a key without a record. In a reached state, each call of the service does to the
-- ledger nothing, or one of three things under one key: it counts a new quantity, neither
-- negative nor below the reserved part; it takes a positive amount into the reserved part, up to
-- the quantity; or it gives back a positive amount of at most the reserved part. The entries
-- under all other keys stay.
pub Step-refines :
    {r t : InventoryRepository} → Reach r → Step r t → LedgerStep (ledger r) (ledger t)
unfolding create_reorder_rule
Step-refines {r} reach (creates_product now id dto) =
    same-ledger r (after (create_product now id dto r)) (create_product_same now id dto r).0
Step-refines {r} reach (creates_warehouse now id dto) =
    same-ledger r (after (create_warehouse now id dto r)) (create_warehouse_same now id dto r).0
Step-refines {r} reach (creates_rule now id dto) = stays λ j. refl
Step-refines {r} reach (sets_stock number_text now id move_id dto) =
    set_stock-refines number_text now id move_id dto r
Step-refines {r} reach (reserves now id move_id dto fresh) =
    reserve_stock-refines now id move_id dto r (Reach-IsConsistent reach)
Step-refines {r} reach (cancels now id) =
    cancel_reservation-refines now id r (Reach-IsConsistent reach)
