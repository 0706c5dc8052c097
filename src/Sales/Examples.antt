-- ===== src/Sales/Examples.antt =====
-- Runs of the sales service on one order of a customer.
use autonomous_enterprise.Shared.{
  ◌≡◌, refl, inl, inr, ok, result, String, ℕ, some, none, true, false, [], ◌∷◌, lookup, after, All,
  List,
}
use autonomous_enterprise.Shared.Int.{pos, ◌+ℤ◌, ◌*ℤ◌}
use autonomous_enterprise.Sales.Types.{
  SalesOrder, SalesOrderStatus, LeadOutcome, CreateCustomerDto, CreateSalesOrderDto,
  CreateSalesOrderItemDto, CreateSalesRepDto, CloseLeadDto,
}
use autonomous_enterprise.Sales.Repository.{SalesRepository}
use autonomous_enterprise.Sales.Orders.{
  create_customer, create_sales_order, Priced, new_order, new_item,
}
use autonomous_enterprise.Sales.Leads.{
  create_sales_rep, update_order_status, order_with_status, closed_order, close_lead,
}
use autonomous_enterprise.Sales.Steps.{
  empty_sales, creates_customer, creates_order, creates_rep, moves, closes, Reach, start, next,
}
use autonomous_enterprise.Sales.Traces.{IsSound, Reach-IsSound, IsClosedAs, Step-closed}
use autonomous_enterprise.Sales.Reviving.{close_lead_revives}

abbrev same_text : String → String
same_text text = text

abbrev item_id : ℕ → String
item_id n = "i"

abbrev buyer : CreateCustomerDto
buyer = record { name = "Ann"; email = "ann@example.org"; phone = ""; address = "" }

abbrev seller : CreateSalesRepDto
seller = record {
  full_name = "Bob";
  email = "bob@example.org";
  territory = "";
  quota_monthly_usd = none;
  employee_id = "";
}

abbrev lamps : CreateSalesOrderItemDto
lamps = record { product_id = "p"; quantity = pos 2; unit_price = pos 50; discount = some (pos 10) }

abbrev request : CreateSalesOrderDto
request = record {
  customer_id = "c";
  items = lamps ∷ [];
  discount_amount = some (pos 5);
  notes = "";
  idempotency_key = "";
  channel = none;
  assigned_rep_id = "";
}

abbrev win : CloseLeadDto
win = record { outcome = "WON"; lost_reason = "" }

abbrev staffed : SalesRepository
staffed = after (
    create_sales_rep (pos 100) "t2" "b" seller (after (create_customer "t1" "c" buyer empty_sales)))

abbrev ordered : SalesRepository
ordered = after (create_sales_order "t3" "o" "7" item_id 0 request "" staffed)

abbrev cancelled : SalesRepository
cancelled = after (update_order_status "t4" "o" SalesOrderStatus.cancelled ordered)

abbrev closed : SalesRepository
closed = after (close_lead same_text "t5" "o" win cancelled)

abbrev priced : Priced
priced = record { items = new_item "i" lamps ∷ []; subtotal = pos 100; discounts = pos 10 }

abbrev order : SalesOrder
order = new_order "t3" "o" "7" request "" priced "b"

abbrev cancelled_order : SalesOrder
cancelled_order = order_with_status "t4" SalesOrderStatus.cancelled order

ordered-Reach : Reach ordered
unfolding empty_sales lookup create_sales_rep create_customer
ordered-Reach =
    next
      (next (next start (creates_customer "t1" "c" buyer)) (creates_rep (pos 100) "t2" "b" seller))
      (creates_order "t3" "o" "7" item_id 0 request "" refl)

cancelled-Reach : Reach cancelled
cancelled-Reach = next ordered-Reach (moves "t4" "o" SalesOrderStatus.cancelled)

closed-Reach : Reach closed
closed-Reach = next cancelled-Reach (closes same_text "t5" "o" win)

Reach-IsSound_example : All IsSound closed.orders
Reach-IsSound_example = Reach-IsSound closed-Reach

cancelled-found : lookup "o" cancelled.orders ≡ some cancelled_order
unfolding empty_sales lookup update_order_status create_sales_order create_sales_rep create_customer
    autonomous_enterprise.Shared.insert autonomous_enterprise.Sales.Orders.gross_total ◌*ℤ◌ ◌+ℤ◌
    autonomous_enterprise.Shared.values
cancelled-found = refl

abbrev closed_lead : SalesOrder
closed_lead = closed_order "t5" LeadOutcome.won "" cancelled_order

closed-found : lookup "o" closed.orders ≡ some closed_lead
unfolding empty_sales lookup close_lead update_order_status create_sales_order create_sales_rep
    create_customer autonomous_enterprise.Shared.insert
    autonomous_enterprise.Sales.Orders.gross_total ◌*ℤ◌ ◌+ℤ◌ autonomous_enterprise.Shared.values
closed-found = refl

Step-closed_example :
    IsClosedAs closed_lead
      (lookup "o" (after (update_order_status "t6" "o" SalesOrderStatus.fulfilled closed)).orders)
unfolding closed_order
Step-closed_example =
    Step-closed "o" closed_lead closed-Reach closed-found refl
      (moves "t6" "o" SalesOrderStatus.fulfilled)

won_lead : close_lead same_text "t5" "o" win cancelled ≡ (ok closed_lead, closed)
unfolding empty_sales lookup close_lead update_order_status create_sales_order create_sales_rep
    create_customer autonomous_enterprise.Shared.insert
    autonomous_enterprise.Sales.Orders.gross_total ◌*ℤ◌ ◌+ℤ◌ autonomous_enterprise.Shared.values
won_lead = refl

close_lead_revives_example :
    ((after (update_order_status "t6" "o" SalesOrderStatus.approved cancelled) ≡ cancelled)
      × (¬ (
          result (update_order_status "t6" "o" SalesOrderStatus.approved cancelled)
          ≡ ok closed_lead)))
    × (lookup "o" closed.orders ≡ some closed_lead)
    × (closed_lead.status ≡ SalesOrderStatus.approved)
    × (result (update_order_status "t6" "o" SalesOrderStatus.fulfilled closed)
        ≡ ok (record closed_lead { status = SalesOrderStatus.fulfilled; updated_at = "t6" }))
unfolding order_with_status
close_lead_revives_example =
    close_lead_revives same_text "t5" "t6" "o" win cancelled closed cancelled_order closed_lead
      closed_lead SalesOrderStatus.approved cancelled-Reach cancelled-found (inr (inl refl))
      won_lead refl
