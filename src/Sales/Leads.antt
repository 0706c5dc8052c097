-- ===== src/Sales/Leads.antt =====
-- apps/api/src/modules/sales/sales.service.ts: the methods of the class SalesService on the status of
-- an order, on sales representatives and on leads. `now` is the clock's text, `id` a text that
-- `Date.now()` and `Math.random()` make up, `upper` is `toUpperCase`, `unit` one dollar in the units
-- that an amount counts.
use autonomous_enterprise.Shared.{
  not_found, bad_request, gets, or_throw, throw_if, ◌>>=◌, ◌>>◌, is_empty, or_else, String, ◌==◌,
  Bool, true, false, not, ◌&&◌, ◌||◌, Option, none, some, List, [], ◌∷◌, if◌then◌else◌,
}
use autonomous_enterprise.Shared.Int.{ℤ, pos, ◌*ℤ◌}
use autonomous_enterprise.Sales.Types.{
  SalesOrder, SalesOrderStatus, LeadOutcome, SalesRep, CreateSalesRepDto, CloseLeadDto,
}
use autonomous_enterprise.Sales.Repository
use autonomous_enterprise.Sales.Repository.{SalesRepository}
use autonomous_enterprise.Sales.Orders.{Sale, is_marketplace}

abbrev pub valid_transitions : SalesOrderStatus → List SalesOrderStatus
valid_transitions SalesOrderStatus.draft =
    SalesOrderStatus.pending_approval ∷ SalesOrderStatus.approved ∷ SalesOrderStatus.cancelled ∷ []
valid_transitions SalesOrderStatus.pending_approval =
    SalesOrderStatus.approved ∷ SalesOrderStatus.rejected ∷ SalesOrderStatus.cancelled ∷ []
valid_transitions SalesOrderStatus.approved =
    SalesOrderStatus.fulfilled ∷ SalesOrderStatus.cancelled ∷ []
valid_transitions SalesOrderStatus.rejected = []
valid_transitions SalesOrderStatus.cancelled = []
valid_transitions SalesOrderStatus.fulfilled = []

-- `===` on two statuses
abbrev pub status_eq : SalesOrderStatus → SalesOrderStatus → Bool
status_eq SalesOrderStatus.draft SalesOrderStatus.draft = true
status_eq SalesOrderStatus.pending_approval SalesOrderStatus.pending_approval = true
status_eq SalesOrderStatus.approved SalesOrderStatus.approved = true
status_eq SalesOrderStatus.rejected SalesOrderStatus.rejected = true
status_eq SalesOrderStatus.cancelled SalesOrderStatus.cancelled = true
status_eq SalesOrderStatus.fulfilled SalesOrderStatus.fulfilled = true
status_eq _ _ = false

-- `validTransitions[order.status].includes(newStatus)`
unfoldable pub includes : List SalesOrderStatus → SalesOrderStatus → Bool
includes [] s = false
includes (x ∷ xs) s = status_eq x s || includes xs s

abbrev pub find_order_or_throw : String → Sale SalesOrder
find_order_or_throw id = do
  found ← gets (Repository.find_order_by_id id)
  or_throw found (not_found "Sales order" id)

unfoldable pub order_with_status : String → SalesOrderStatus → SalesOrder → SalesOrder
order_with_status now status o = record o { status = status; updated_at = now }

unfoldable pub update_order_status : String → String → SalesOrderStatus → Sale SalesOrder
unfolding includes order_with_status
update_order_status now id status = do
  o ← find_order_or_throw id
  throw_if (not (includes (valid_transitions o.status) status))
      (bad_request "Invalid state transition")
  Repository.update_order (order_with_status now status o)

unfoldable pub create_sales_rep : ℤ → String → String → CreateSalesRepDto → Sale SalesRep
create_sales_rep unit now id dto = do
  throw_if (is_empty dto.full_name || is_empty dto.email)
      (bad_request "Sales rep fullName and email are required")
  let rep : SalesRep = record {
    id = id;
    employee_id = dto.employee_id;
    full_name = dto.full_name;
    email = dto.email;
    territory = dto.territory;
    quota_monthly_usd = or_else dto.quota_monthly_usd (pos 10000 *ℤ unit);
    active = true;
    created_at = now;
    updated_at = now;
  }
  Repository.create_rep rep

unfoldable pub list_sales_reps : Sale (List SalesRep)
list_sales_reps = gets Repository.find_all_reps

-- `order.leadOutcome && order.leadOutcome !== LeadOutcome.PENDING`
abbrev pub is_decided : Option LeadOutcome → Bool
is_decided none = false
is_decided (some LeadOutcome.pending) = false
is_decided (some LeadOutcome.won) = true
is_decided (some LeadOutcome.lost) = true

unfoldable pub assigned_order : String → String → SalesOrder → SalesOrder
assigned_order now rep_id o = record o {
  assigned_rep_id = rep_id;
  assigned_at = now;
  lead_outcome = some LeadOutcome.pending;
  updated_at = now;
}

unfoldable pub assign_lead : String → String → String → Sale SalesOrder
unfolding assigned_order
assign_lead now order_id rep_id = do
  o ← find_order_or_throw order_id
  throw_if (is_marketplace o.channel)
      (bad_request "Marketplace orders are self-service and cannot be assigned to a sales rep")
  throw_if (is_decided o.lead_outcome) (bad_request "Lead is already closed")
  found ← gets (Repository.find_rep_by_id rep_id)
  rep ← or_throw found (not_found "Sales rep" rep_id)
  throw_if (not rep.active) (bad_request "Sales rep is not active")
  Repository.update_order (assigned_order now rep_id o)

-- The outcome that a text names, `WON` or `LOST`.
abbrev pub outcome_of : String → Option LeadOutcome
outcome_of text =
    if text == "WON"
    then some LeadOutcome.won
    else if text == "LOST"
    then some LeadOutcome.lost
    else none

abbrev pub is_lost : LeadOutcome → Bool
is_lost LeadOutcome.lost = true
is_lost _ = false

abbrev pub is_won : LeadOutcome → Bool
is_won LeadOutcome.won = true
is_won _ = false

unfoldable pub closed_order : String → LeadOutcome → String → SalesOrder → SalesOrder
closed_order now outcome lost_reason o = record o {
  lead_outcome = some outcome;
  closed_at = now;
  lost_reason = lost_reason;
  status = if is_won outcome then SalesOrderStatus.approved else SalesOrderStatus.cancelled;
  updated_at = now;
}

unfoldable pub close_lead : (String → String) → String → String → CloseLeadDto → Sale SalesOrder
unfolding closed_order
close_lead upper now order_id dto = do
  o ← find_order_or_throw order_id
  throw_if (is_marketplace o.channel)
      (bad_request "Marketplace orders do not require sales closing")
  throw_if (is_empty o.assigned_rep_id) (bad_request "Cannot close unassigned lead")
  throw_if (is_decided o.lead_outcome) (bad_request "Lead is already closed")
  outcome ← or_throw (outcome_of (upper dto.outcome)) (bad_request "outcome must be WON or LOST")
  throw_if (is_lost outcome && is_empty dto.lost_reason)
      (bad_request "lostReason is required when closing as LOST")
  Repository.update_order (closed_order now outcome dto.lost_reason o)
