-- ===== src/Sales/Reviving.antt =====
-- `closeLead` on an order whose status is final.
use autonomous_enterprise.Shared.{
  arith, ◌≡◌, ◌⊎◌, inl, inr, refl, lookup, lookup-insert_self, All-lookup, String, some, ok, after,
  result,
}
use autonomous_enterprise.Sales.Types.{SalesOrder, SalesOrderStatus, CloseLeadDto}
use autonomous_enterprise.Sales.Repository.{SalesRepository}
use autonomous_enterprise.Sales.Leads.{
  includes, order_with_status, update_order_status, closed_order, close_lead,
}
use autonomous_enterprise.Sales.Steps.{Reach}
use autonomous_enterprise.Sales.Traces.{IsSound, Reach-IsSound}

-- The statuses of an order that is done with.
abbrev pub IsFinal : SalesOrderStatus → Type 0
IsFinal status =
    (status ≡ SalesOrderStatus.rejected)
    ⊎ (status ≡ SalesOrderStatus.cancelled)
    ⊎ (status ≡ SalesOrderStatus.fulfilled)

final_stays :
    (now id : String) (status : SalesOrderStatus) (r : SalesRepository) (o y : SalesOrder)
    → lookup id r.orders ≡ some o
    → IsFinal o.status
    → (after (update_order_status now id status r) ≡ r)
      × (¬ (result (update_order_status now id status r) ≡ ok y))
unfolding update_order_status includes
final_stays now id status r o y found (inl e) = rw (found, e) (refl, λ done. ground arith)
final_stays now id status r o y found (inr (inl e)) = rw (found, e) (refl, λ done. ground arith)
final_stays now id status r o y found (inr (inr e)) = rw (found, e) (refl, λ done. ground arith)

approved_moves :
    (now id : String) (r : SalesRepository) (x : SalesOrder)
    → lookup id r.orders ≡ some x
    → x.id ≡ id
    → x.status ≡ SalesOrderStatus.approved
    → result (update_order_status now id SalesOrderStatus.fulfilled r)
      ≡ ok (record x { status = SalesOrderStatus.fulfilled; updated_at = now })
unfolding update_order_status includes order_with_status
approved_moves now id r x found own approved = ground arith

won_stored :
    (upper : String → String) (now id : String) (dto : CloseLeadDto) (r t : SalesRepository)
    (o x : SalesOrder)
    → lookup id r.orders ≡ some o
    → o.id ≡ id
    → close_lead upper now id dto r ≡ (ok x, t)
    → upper dto.outcome ≡ "WON"
    → (lookup id t.orders ≡ some x) × (x.id ≡ id) × (x.status ≡ SalesOrderStatus.approved)
unfolding close_lead closed_order
won_stored upper now id dto r t o x found own done won =
    let asked = rw (found, won) at done in ground (arith, lookup-insert_self id x r.orders, asked)

-- In a reached state, an order that is rejected, cancelled or fulfilled takes no new status:
-- whatever the status, `updateOrderStatus` changes nothing and returns no order. But when
-- `closeLead` returns for it with the outcome WON, it is stored as approved, and
-- `updateOrderStatus` then makes it fulfilled.
pub close_lead_revives :
    (upper : String → String) (now later id : String) (dto : CloseLeadDto) (r t : SalesRepository)
    (o x y : SalesOrder) (status : SalesOrderStatus)
    → Reach r
    → lookup id r.orders ≡ some o
    → IsFinal o.status
    → close_lead upper now id dto r ≡ (ok x, t)
    → upper dto.outcome ≡ "WON"
    → ((after (update_order_status later id status r) ≡ r)
        × (¬ (result (update_order_status later id status r) ≡ ok y)))
      × (lookup id t.orders ≡ some x)
      × (x.status ≡ SalesOrderStatus.approved)
      × (result (update_order_status later id SalesOrderStatus.fulfilled t)
          ≡ ok (record x { status = SalesOrderStatus.fulfilled; updated_at = later }))
close_lead_revives upper now later id dto r t o x y status reach found final done won =
    let own = (All-lookup IsSound id o r.orders (Reach-IsSound reach) found).0 in
    let (there, same, approved) = won_stored upper now id dto r t o x found own done won in
    (
      final_stays later id status r o y found final,
      there,
      approved,
      approved_moves later id t x there same approved,
    )
