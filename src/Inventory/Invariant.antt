-- ===== src/Inventory/Invariant.antt =====
-- What holds of the inventory between two calls: every stock record counts as reserved exactly what
-- its active reservations hold, and never more than is there.
use autonomous_enterprise.Shared.{
  arith, ◌≡◌, ◌≢◌, Store, lookup, insert, All, sum_by, lookup-insert, eq_iff, inl, inr, Bool-cases,
  String, ◌==◌, [], ◌∷◌, Option, none, some, not, ◌&&◌, if◌then◌else◌,
}
use autonomous_enterprise.Shared.Int.{ℤ, pos, ◌-ℤ◌, ◌≤ℤ◌}
use autonomous_enterprise.Inventory.Types.{Stock, StockReservation}
use autonomous_enterprise.Inventory.Repository.{InventoryRepository, stock_key}
use autonomous_enterprise.Inventory.Stocks.{is_cancelled}

-- The quantity that a reservation holds of the stock with key `k`.
abbrev pub held : String → StockReservation → ℤ
held k x =
    if stock_key x.warehouse_id x.product_id == k && not (is_cancelled x.status)
    then x.quantity
    else pos 0

-- A stock record under the key `k`, of which reservations hold `total`.
abbrev pub StockAgrees : String → Option Stock → ℤ → Type 0
StockAgrees k none total = total ≡ pos 0
StockAgrees k (some s) total =
    (stock_key s.warehouse_id s.product_id ≡ k)
    × (s.reserved_quantity ≡ total)
    × (s.available_quantity ≡ s.quantity -ℤ s.reserved_quantity)
    × (s.reserved_quantity ≤ℤ s.quantity)

abbrev pub IsSound : String → StockReservation → Type 0
IsSound id x = (x.id ≡ id) × (pos 1 ≤ℤ x.quantity)

pub record IsConsistent (r : InventoryRepository) : Type 0 where
  pub stocks : (k : String) → StockAgrees k (lookup k r.stock_map) (sum_by (held k) r.reservations)
  pub sound : All IsSound r.reservations

-- The stock under `k` after a write of one stock record.
pub agrees_update :
    (k j : String) (s : Stock) (m : Store Stock) (before total : ℤ)
    → StockAgrees k (lookup k m) before
    → (j ≡ k → StockAgrees k (some s) total)
    → (j ≢ k → total ≡ before)
    → StockAgrees k (lookup k (insert j s m)) total
agrees_update k j s m before total h same other = elim (Bool-cases (j == k)) [
  | inl e ↦ rw (lookup-insert j k s m, e) (same ((eq_iff j k).0 e))
  | inr e ↦ rw (lookup-insert j k s m, e, other (λ p. cc (e, (eq_iff j k).1 p))) h
]

pub held_nonneg :
    (k : String) (m : Store StockReservation) → All IsSound m → All (λ _ x. pos 0 ≤ℤ held k x) m
held_nonneg k [] a = tt
held_nonneg k ((j, x) ∷ m) a = (ground arith, held_nonneg k m a.1)
