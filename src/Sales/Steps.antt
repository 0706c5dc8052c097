-- ===== src/Sales/Steps.antt =====
-- The calls of the sales service, and what each of them writes of the orders.
use autonomous_enterprise.Shared.{
  arith, ◌≡◌, refl, ℕ, lookup, insert, Store, String, [], some, none, after, result, Result-cases,
  Option-cases, inl, inr, ◌⊎◌, or_existing, or_text, true, false,
}
use autonomous_enterprise.Shared.Int.{ℤ}
use autonomous_enterprise.Sales.Types.{
  SalesOrder, SalesOrderStatus, LeadOutcome, CreateCustomerDto, CreateSalesOrderDto,
  CreateSalesRepDto, CloseLeadDto,
}
use autonomous_enterprise.Sales.Repository.{SalesRepository}
use autonomous_enterprise.Sales.Orders.{
  create_customer, create_new_order, create_sales_order, order_with_key,
}
use autonomous_enterprise.Sales.Leads.{
  is_decided, outcome_of, order_with_status, update_order_status, create_sales_rep, assigned_order,
  assign_lead, closed_order, close_lead,
}
use autonomous_enterprise.Sales.Pricing.{
  IsPriced, create_new_order_failed, create_new_order_written,
}

-- The repositories as they are constructed.
unfoldable pub empty_sales : SalesRepository
empty_sales = record { customers = []; orders = []; reps = [] }

-- One call of the service that may write. The identifier of a new order is not in use.
pub data Step (r : SalesRepository) : SalesRepository → Type 0 where
  creates_customer :
      (now id : String) (dto : CreateCustomerDto) → Step r (after (create_customer now id dto r))
  creates_order :
      (now id number : String) (item_id : ℕ → String) (roll : ℕ) (dto : CreateSalesOrderDto)
      (header : String)
      → lookup id r.orders ≡ none
      → Step r (after (create_sales_order now id number item_id roll dto header r))
  moves :
      (now id : String) (status : SalesOrderStatus)
      → Step r (after (update_order_status now id status r))
  creates_rep :
      (unit : ℤ) (now id : String) (dto : CreateSalesRepDto)
      → Step r (after (create_sales_rep unit now id dto r))
  assigns : (now order_id rep_id : String) → Step r (after (assign_lead now order_id rep_id r))
  closes :
      (upper : String → String) (now order_id : String) (dto : CloseLeadDto)
      → Step r (after (close_lead upper now order_id dto r))

pub data Reach : SalesRepository → Type 0 where
  start : Reach empty_sales
  next : {r t : SalesRepository} → Reach r → Step r t → Reach t

-- What a decided lead keeps.
abbrev pub Keeps : SalesOrder → SalesOrder → Type 0
Keeps o x =
    is_decided o.lead_outcome ≡ true
    → (x.lead_outcome ≡ o.lead_outcome) × (x.assigned_rep_id ≡ o.assigned_rep_id)

-- The amounts of two orders are the same.
abbrev pub SameAmounts : SalesOrder → SalesOrder → Type 0
SameAmounts o x =
    (x.id ≡ o.id)
    × (x.items ≡ o.items)
    × (x.subtotal ≡ o.subtotal)
    × (x.discount_amount ≡ o.discount_amount)
    × (x.total_amount ≡ o.total_amount)

-- The orders after a call.
pub data Written (r : SalesRepository) (m : Store SalesOrder) : Type 0 where
  same : m ≡ r.orders → Written r m
  created :
      (x : SalesOrder)
      → lookup x.id r.orders ≡ none
      → IsPriced x
      → m ≡ insert x.id x r.orders
      → Written r m
  changed :
      (id : String) (o x : SalesOrder)
      → lookup id r.orders ≡ some o
      → SameAmounts o x
      → Keeps o x
      → m ≡ insert x.id x r.orders
      → Written r m

move_found :
    (now id : String) (status : SalesOrderStatus) (r : SalesRepository) (o : SalesOrder)
    → lookup id r.orders ≡ some o
    → let m = (after (update_order_status now id status r)).orders in
      (m ≡ r.orders) ⊎ (m ≡ insert o.id (order_with_status now status o) r.orders)
unfolding update_order_status order_with_status
move_found now id status r o found = ground arith

assign_found :
    (now order_id rep_id : String) (r : SalesRepository) (o : SalesOrder)
    → lookup order_id r.orders ≡ some o
    → let m = (after (assign_lead now order_id rep_id r)).orders in
      (m ≡ r.orders)
      ⊎ ((is_decided o.lead_outcome ≡ false)
          × (m ≡ insert o.id (assigned_order now rep_id o) r.orders))
unfolding assign_lead assigned_order
assign_found now order_id rep_id r o found = ground arith

close_found :
    (upper : String → String) (now order_id : String) (dto : CloseLeadDto) (r : SalesRepository)
    (o : SalesOrder) (outcome : LeadOutcome)
    → lookup order_id r.orders ≡ some o
    → outcome_of (upper dto.outcome) ≡ some outcome
    → let m = (after (close_lead upper now order_id dto r)).orders in
      (m ≡ r.orders)
      ⊎ ((is_decided o.lead_outcome ≡ false)
          × (m ≡ insert o.id (closed_order now outcome dto.lost_reason o) r.orders))
unfolding close_lead closed_order
close_found upper now order_id dto r o outcome found named = ground arith

customer_same :
    (now id : String) (dto : CreateCustomerDto) (r : SalesRepository)
    → (after (create_customer now id dto r)).orders ≡ r.orders
unfolding create_customer
customer_same now id dto r = ground arith

rep_same :
    (unit : ℤ) (now id : String) (dto : CreateSalesRepDto) (r : SalesRepository)
    → (after (create_sales_rep unit now id dto r)).orders ≡ r.orders
unfolding create_sales_rep
rep_same unit now id dto r = ground arith

module _ (r : SalesRepository) where
  create_order_Written :
      (now id number : String) (item_id : ℕ → String) (roll : ℕ) (dto : CreateSalesOrderDto)
      (header : String)
      → lookup id r.orders ≡ none
      → Written r (after (create_sales_order now id number item_id roll dto header r)).orders
  unfolding create_sales_order
  create_order_Written now id number item_id roll dto header fresh =
      let key = or_text header dto.idempotency_key in
      elim (Option-cases (order_with_key key r)) [
        | inr (x, old) ↦ rw (old, or_existing) (same refl)
        | inl new ↦
            elim (Result-cases (result (create_new_order now id number item_id roll dto key r))) [
              | inl (e, failed) ↦
                  rw
                    (
                      new,
                      or_existing,
                      create_new_order_failed now id number item_id roll dto key r e failed,
                    )
                    (same refl)
              | inr (o, done) ↦
                  let (written, own, priced) =
                    create_new_order_written now id number item_id roll dto key r o done in
                  rw (new, or_existing, written) (created o (rw own fresh) priced (rw own refl))
            ]
      ]

  move_written :
      (now id : String) (status : SalesOrderStatus)
      → let m = (after (update_order_status now id status r)).orders in
        (m ≡ r.orders)
        ⊎ ((o : SalesOrder) × (lookup id r.orders ≡ some o)
            × (m ≡ insert o.id (order_with_status now status o) r.orders))
  unfolding update_order_status
  move_written now id status = elim (Option-cases (lookup id r.orders)) [
    | inl unknown ↦ inl (ground arith)
    | inr (o, found) ↦ elim (move_found now id status r o found) [
      | inl e ↦ inl e
      | inr e ↦ inr (o, found, e)
    ]
  ]

  assign_written :
      (now order_id rep_id : String)
      → let m = (after (assign_lead now order_id rep_id r)).orders in
        (m ≡ r.orders)
        ⊎ ((o : SalesOrder) × (lookup order_id r.orders ≡ some o)
            × (is_decided o.lead_outcome ≡ false)
            × (m ≡ insert o.id (assigned_order now rep_id o) r.orders))
  unfolding assign_lead
  assign_written now order_id rep_id = elim (Option-cases (lookup order_id r.orders)) [
    | inl unknown ↦ inl (ground arith)
    | inr (o, found) ↦ elim (assign_found now order_id rep_id r o found) [
      | inl e ↦ inl e
      | inr (waiting, e) ↦ inr (o, found, waiting, e)
    ]
  ]

  close_written :
      (upper : String → String) (now order_id : String) (dto : CloseLeadDto)
      → let m = (after (close_lead upper now order_id dto r)).orders in
        (m ≡ r.orders)
        ⊎ ((o : SalesOrder) × (outcome : LeadOutcome) × (lookup order_id r.orders ≡ some o)
            × (is_decided o.lead_outcome ≡ false)
            × (m ≡ insert o.id (closed_order now outcome dto.lost_reason o) r.orders))
  unfolding close_lead
  close_written upper now order_id dto = elim (Option-cases (lookup order_id r.orders)) [
    | inl unknown ↦ inl (ground arith)
    | inr (o, found) ↦ elim (Option-cases (outcome_of (upper dto.outcome))) [
      | inl no_outcome ↦ inl (ground arith)
      | inr (outcome, named) ↦ elim (close_found upper now order_id dto r o outcome found named) [
        | inl e ↦ inl e
        | inr (waiting, e) ↦ inr (o, outcome, found, waiting, e)
      ]
    ]
  ]

pub Step-Written : {r t : SalesRepository} → Step r t → Written r t.orders
unfolding order_with_status assigned_order closed_order
Step-Written {r} (creates_customer now id dto) = same (customer_same now id dto r)
Step-Written {r} (creates_order now id number item_id roll dto header fresh) =
    create_order_Written r now id number item_id roll dto header fresh
Step-Written {r} (moves now id status) = elim (move_written r now id status) [
  | inl e ↦ same e
  | inr (o, found, e) ↦
      changed id o (order_with_status now status o) found (refl, refl, refl, refl, refl)
        (λ decided. (refl, refl)) e
]
Step-Written {r} (creates_rep unit now id dto) = same (rep_same unit now id dto r)
Step-Written {r} (assigns now order_id rep_id) = elim (assign_written r now order_id rep_id) [
  | inl e ↦ same e
  | inr (o, found, waiting, e) ↦
      changed order_id o (assigned_order now rep_id o) found (refl, refl, refl, refl, refl)
        (λ decided. ground arith) e
]
Step-Written {r} (closes upper now order_id dto) = elim (close_written r upper now order_id dto) [
  | inl e ↦ same e
  | inr (o, outcome, found, waiting, e) ↦
      changed order_id o (closed_order now outcome dto.lost_reason o) found
        (refl, refl, refl, refl, refl) (λ decided. ground arith) e
]
