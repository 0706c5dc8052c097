-- ===== src/Procurement/Reapproving.antt =====
-- One purchase request ordered twice: `approvePurchaseRequest` opens a converted request again.
use autonomous_enterprise.Shared.{
  arith, ◌≡◌, ◌≢◌, refl, sym, ap, ◌∙◌, lookup, lookup-insert, lookup-insert_self, insert, eq_iff,
  is_empty, or_existing, or_text, Store, String, ℕ, none, some, false, ok, after, result,
}
use autonomous_enterprise.Shared.Int.{ℤ}
use autonomous_enterprise.Procurement.Types.{
  PurchaseRequest, PurchaseRequestStatus, PurchaseOrder, CreatePurchaseOrderDto,
}
use autonomous_enterprise.Procurement.Repository.{ProcurementRepository}
use autonomous_enterprise.Procurement.Requests.{request_with_status, approve_purchase_request}
use autonomous_enterprise.Procurement.Orders.{order_with_key, create_purchase_order}
use autonomous_enterprise.Procurement.Ordering.{
  create_named, create_again, create_requested_written,
}
use autonomous_enterprise.Procurement.Converting.{create_purchase_order_refused}

-- The requests after an approval.
approve_written :
    (now id : String) (r : ProcurementRepository) (q : PurchaseRequest)
    → lookup id r.purchase_requests ≡ some q
    → q.id ≡ id
    → after (approve_purchase_request now id r) ≡ record r {
      purchase_requests =
          insert id
            (record q { status = PurchaseRequestStatus.approved; updated_at = now })
            r.purchase_requests;
    }
unfolding approve_purchase_request request_with_status
approve_written now id r q found own = ground arith

lookup-insert_other :
    (key asked : String) (new : PurchaseOrder) (m : Store PurchaseOrder)
    → key ≢ asked
    → lookup asked (insert key new m) ≡ lookup asked m
lookup-insert_other key asked new m other =
    ground (arith, lookup-insert key asked new m, eq_iff key asked)

module _ (two_decimals : ℤ → ℤ) (now id number : String) (item_id : ℕ → String)
    (dto : CreatePurchaseOrderDto) (header : String) (r t : ProcurementRepository)
    (q : PurchaseRequest) (o : PurchaseOrder) where
  -- What the first order leaves.
  first_written :
      order_with_key (or_text dto.idempotency_key header) r ≡ none
      → is_empty dto.purchase_request_id ≡ false
      → lookup dto.purchase_request_id r.purchase_requests ≡ some q
      → q.id ≡ dto.purchase_request_id
      → create_purchase_order two_decimals now id number item_id dto header r ≡ (ok o, t)
      → t ≡ record r {
        purchase_orders = insert id o r.purchase_orders;
        purchase_requests =
            insert q.id
              (request_with_status PurchaseRequestStatus.converted now q)
              r.purchase_requests;
      }
  unfolding create_purchase_order
  first_written new named found own done =
      let fresh = rw (new, or_existing) at done in
      let (_, _, _, _, _, _, written) =
        create_requested_written two_decimals now id number item_id dto
          (or_text dto.idempotency_key header) r o q named found (cc (own, found))
          (ap result fresh) in
      sym (ap after fresh) ∙ written

  second_order :
      (later' id' number' key' header' : String) (item_id' : ℕ → String) (u : ProcurementRepository)
      (q' : PurchaseRequest)
      → order_with_key (or_text dto.idempotency_key header) r ≡ none
      → is_empty dto.purchase_request_id ≡ false
      → create_purchase_order two_decimals now id number item_id dto header r ≡ (ok o, t)
      → order_with_key (or_text key' header') u ≡ none
      → u.suppliers ≡ r.suppliers
      → lookup dto.purchase_request_id u.purchase_requests ≡ some q'
      → q'.id ≡ dto.purchase_request_id
      → q'.status ≡ PurchaseRequestStatus.approved
      → let again =
          create_purchase_order two_decimals later' id' number' item_id'
            (record dto { idempotency_key = key' })
            header' in
        (o' : PurchaseOrder) × (result (again u) ≡ ok o')
        × (o'.purchase_request_id ≡ dto.purchase_request_id)
        × ((after (again u)).purchase_orders ≡ insert id' o' u.purchase_orders)
  unfolding create_purchase_order
  second_order later' id' number' key' header' item_id' u q' new named done unused suppliers there
        own approved =
      let fresh = rw (new, or_existing) at done in
      let dto' = record dto { idempotency_key = key' } in
      let (o', made) =
        create_again two_decimals now id number item_id dto (or_text dto.idempotency_key header) r o
          q' later' id' number' (or_text key' header') item_id' dto' u (ap result fresh) named
          suppliers there own (rw approved refl) refl refl refl in
      let (_, _, _, _, _, _, written) =
        create_requested_written two_decimals later' id' number' item_id' dto'
          (or_text key' header') u o' q' named there (cc (own, there)) made in
      (
        o',
        rw (unused, or_existing) made,
        create_named two_decimals later' id' number' item_id' dto' (or_text key' header') u o' made,
        rw (unused, or_existing) (ap (λ x. x.purchase_orders) written),
      )

  -- Once `createPurchaseOrder` has made an order for an approved purchase request that is stored
  -- under its identifier, another call for the request, with an unused key, changes nothing and
  -- returns no order. After one call of `approvePurchaseRequest` the same call returns a second
  -- order for the request, which is stored beside the first: the identifier of the second
  -- differs.
  pub create_purchase_order_twice :
      (later later' id' number' key' header' : String) (item_id' : ℕ → String) (p : PurchaseOrder)
      → order_with_key (or_text dto.idempotency_key header) r ≡ none
      → is_empty dto.purchase_request_id ≡ false
      → lookup dto.purchase_request_id r.purchase_requests ≡ some q
      → q.id ≡ dto.purchase_request_id
      → create_purchase_order two_decimals now id number item_id dto header r ≡ (ok o, t)
      → order_with_key (or_text key' header') t ≡ none
      → id' ≢ id
      → let again =
          create_purchase_order two_decimals later' id' number' item_id'
            (record dto { idempotency_key = key' })
            header' in
        let u = after (approve_purchase_request later dto.purchase_request_id t) in
        ((after (again t) ≡ t) × (¬ (result (again t) ≡ ok p)))
        × ((o' : PurchaseOrder) × (result (again u) ≡ ok o')
            × (o'.purchase_request_id ≡ dto.purchase_request_id)
            × (lookup id' (after (again u)).purchase_orders ≡ some o')
            × (lookup id (after (again u)).purchase_orders ≡ some o))
  unfolding request_with_status
  create_purchase_order_twice later later' id' number' key' header' item_id' p new named found own
        done unused other =
      let converted = request_with_status PurchaseRequestStatus.converted now q in
      let approved = record converted {
        status = PurchaseRequestStatus.approved;
        updated_at = later;
      } in
      let first = first_written new named found own done in
      let there : lookup dto.purchase_request_id t.purchase_requests ≡ some converted = rw first (
        ap (λ k. lookup k (insert q.id converted r.purchase_requests)) (sym own)
        ∙ lookup-insert_self q.id converted r.purchase_requests) in
      let u = after (approve_purchase_request later dto.purchase_request_id t) in
      let reopened = approve_written later dto.purchase_request_id t converted there own in
      let kept : u.purchase_orders ≡ insert id o r.purchase_orders =
        ap (λ x. x.purchase_orders) reopened ∙ ap (λ x. x.purchase_orders) first in
      let (o', made, names, orders) =
        second_order later' id' number' key' header' item_id' u approved new named done
          (rw reopened unused) (ap (λ x. x.suppliers) reopened ∙ ap (λ x. x.suppliers) first)
          (rw reopened (lookup-insert_self dto.purchase_request_id approved t.purchase_requests))
          own refl in
      (
        create_purchase_order_refused two_decimals later' id' number' item_id'
            (record dto { idempotency_key = key' }) header' t converted unused named there
            (ground arith) p,
        (
          o',
          made,
          names,
          ap (lookup id') orders ∙ lookup-insert_self id' o' u.purchase_orders,
          ap (lookup id) orders
              ∙ lookup-insert_other id' id o' u.purchase_orders other
              ∙ ap (lookup id) kept
              ∙ lookup-insert_self id o r.purchase_orders,
        ),
      )
