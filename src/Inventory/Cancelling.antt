-- ===== src/Inventory/Cancelling.antt =====
-- `cancelReservation` keeps the inventory consistent.
use autonomous_enterprise.Shared.{
  ◌≡◌, refl, ◌≢◌, lookup, insert, All, All-insert, All-lookup, sum_by, sum_by-insert_old,
  weight-le-sum_by, eq_iff, inl, inr, Option-cases, Bool-cases, String, none, some, false, after,
}
use autonomous_enterprise.Shared.Int.{pos, ◌+ℤ◌, ◌≤ℤ◌, int_laws}
use autonomous_enterprise.Inventory.Types.{Stock, StockReservation}
use autonomous_enterprise.Inventory.Repository.{InventoryRepository, stock_key, find_stock}
use autonomous_enterprise.Inventory.Stocks.{
  is_cancelled, released_stock, cancelled_reservation, cancel_reservation,
}
use autonomous_enterprise.Inventory.Invariant.{
  held, StockAgrees, IsSound, IsConsistent, agrees_update, held_nonneg,
}

-- A call throws and changes nothing, or finds the reservation cancelled and changes nothing, or
-- writes the reservation and, where there is one, the stock.
pub cancel_reservation_cases :
    (Q : InventoryRepository → Type 0) (now id : String) (r : InventoryRepository)
    → Q r
    → ((x : StockReservation)
        → lookup id r.reservations ≡ some x
        → is_cancelled x.status ≡ false
        → find_stock x.warehouse_id x.product_id r ≡ none
        → Q (record r { reservations = insert x.id (cancelled_reservation now x) r.reservations }))
    → ((x : StockReservation) (s : Stock)
        → lookup id r.reservations ≡ some x
        → is_cancelled x.status ≡ false
        → find_stock x.warehouse_id x.product_id r ≡ some s
        → Q (record r {
          stock_map =
              insert
                (stock_key s.warehouse_id s.product_id)
                (released_stock now x.quantity s)
                r.stock_map;
          reservations = insert x.id (cancelled_reservation now x) r.reservations;
        }))
    → Q (after (cancel_reservation now id r))
unfolding cancel_reservation
cancel_reservation_cases Q now id r q gone step = elim (Option-cases (lookup id r.reservations)) [
  | inl unknown ↦ rw unknown q
  | inr (x, e) ↦ elim (Bool-cases (is_cancelled x.status)) [
    | inl done ↦ rw (e, done) q
    | inr active ↦ elim (Option-cases (find_stock x.warehouse_id x.product_id r)) [
      | inl missing ↦ rw (e, active, missing) (gone x e active missing)
      | inr (s, found) ↦ rw (e, active, found) (step x s e active found)
    ]
  ]
]

module _ (now id : String) (r : InventoryRepository) (h : IsConsistent r) (x : StockReservation)
    (at_id : lookup id r.reservations ≡ some x) where
  cancelled_reservation-IsSound :
      All IsSound (insert x.id (cancelled_reservation now x) r.reservations)
  unfolding cancelled_reservation
  cancelled_reservation-IsSound =
      All-insert IsSound x.id (cancelled_reservation now x) r.reservations h.sound
        (refl, (All-lookup IsSound id x r.reservations h.sound at_id).1)

  module _ (k : String) (active : is_cancelled x.status ≡ false) where
    -- The reservation's own quantity leaves the sum, and was part of it.
    pub cancelled_total :
        (sum_by (held k) (insert x.id (cancelled_reservation now x) r.reservations) +ℤ held k x
          ≡ sum_by (held k) r.reservations)
        × (held k x ≤ℤ sum_by (held k) r.reservations)
        × (pos 1 ≤ℤ x.quantity)
    unfolding cancelled_reservation
    cancelled_total = grind (
      int_laws,
      All-lookup IsSound id x r.reservations h.sound at_id,
      sum_by-insert_old (held k) id (cancelled_reservation now x) x r.reservations at_id,
      weight-le-sum_by (held k) id r.reservations (held_nonneg k r.reservations h.sound),
    )

    cancel_gone :
        find_stock x.warehouse_id x.product_id r ≡ none
        → StockAgrees k
            (lookup k r.stock_map)
            (sum_by (held k) (insert x.id (cancelled_reservation now x) r.reservations))
    cancel_gone missing =
        grind
          (int_laws, cancelled_total, h.stocks k, eq_iff (stock_key x.warehouse_id x.product_id) k)

    module _ (s : Stock) (found : find_stock x.warehouse_id x.product_id r ≡ some s) where
      cancel_same :
          stock_key s.warehouse_id s.product_id ≡ k
          → StockAgrees k
              (some (released_stock now x.quantity s))
              (sum_by (held k) (insert x.id (cancelled_reservation now x) r.reservations))
      unfolding released_stock
      cancel_same e = grind (
        int_laws,
        cancelled_total,
        h.stocks (stock_key x.warehouse_id x.product_id),
        eq_iff (stock_key x.warehouse_id x.product_id) k,
      )

      cancel_other :
          stock_key s.warehouse_id s.product_id ≢ k
          → sum_by (held k) (insert x.id (cancelled_reservation now x) r.reservations)
            ≡ sum_by (held k) r.reservations
      cancel_other ne = grind (
        int_laws,
        cancelled_total,
        h.stocks (stock_key x.warehouse_id x.product_id),
        eq_iff (stock_key x.warehouse_id x.product_id) k,
      )

pub cancel_reservation-IsConsistent :
    (now id : String) (r : InventoryRepository)
    → IsConsistent r
    → IsConsistent (after (cancel_reservation now id r))
cancel_reservation-IsConsistent now id r h =
    cancel_reservation_cases IsConsistent now id r h
      (λ x at_id active missing. record {
        stocks = λ k. cancel_gone now id r h x at_id k active missing;
        sound = cancelled_reservation-IsSound now id r h x at_id;
      })
      (λ x s at_id active found. record {
        stocks = λ k.
            agrees_update k (stock_key s.warehouse_id s.product_id)
              (released_stock now x.quantity s) r.stock_map _ _ (h.stocks k)
              (cancel_same now id r h x at_id k active s found)
              (cancel_other now id r h x at_id k active s found);
        sound = cancelled_reservation-IsSound now id r h x at_id;
      })
