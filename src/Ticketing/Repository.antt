-- ===== src/Ticketing/Repository.antt =====
-- apps/api/src/modules/ticketing/infrastructure/in-memory-ticketing.repository.ts: the maps of the
-- class InMemoryTicketingRepository and its methods. A `find` is a function of the state, a write an
-- action. `time_of` is `new Date(text).getTime()`.
use autonomous_enterprise.Shared.{
  Action, modify, pure, ok, err, fault, ◌>>◌, Store, lookup, insert, values, filter_by, is_empty,
  is_present, String, ◌==◌, Bool, true, false, Option, none, some, List, if◌then◌else◌,
}
use autonomous_enterprise.Shared.Int.{ℤ, pos, ◌-ℤ◌}
use autonomous_enterprise.Shared.Sort.{sort_down}
use autonomous_enterprise.Ticketing.Types.{
  Ticket, TicketStatus, TicketComment, TicketAssignment, TicketSla,
}

pub record TicketingRepository : Type 0 where
  pub tickets : Store Ticket
  pub comments : Store TicketComment
  pub assignments : Store TicketAssignment
  pub slas : Store TicketSla

abbrev Repo : Type 0 → Type 0
Repo A = Action TicketingRepository A

abbrev pub create_ticket : Ticket → Repo Ticket
create_ticket t = do modify (λ r. record r { tickets = insert t.id t r.tickets }); pure t

abbrev pub update_ticket : Ticket → Repo Ticket
update_ticket t r =
    if is_present (lookup t.id r.tickets)
    then (ok t, record r { tickets = insert t.id t r.tickets })
    else (err (fault "Ticket" t.id), r)

abbrev pub find_ticket_by_id : String → TicketingRepository → Option Ticket
find_ticket_by_id id r = lookup id r.tickets

-- `a === b` on the texts of the statuses.
unfoldable pub status_eq : TicketStatus → TicketStatus → Bool
status_eq TicketStatus.opened TicketStatus.opened = true
status_eq TicketStatus.triaged TicketStatus.triaged = true
status_eq TicketStatus.assigned TicketStatus.assigned = true
status_eq TicketStatus.in_progress TicketStatus.in_progress = true
status_eq TicketStatus.escalated TicketStatus.escalated = true
status_eq TicketStatus.human_review TicketStatus.human_review = true
status_eq TicketStatus.resolved TicketStatus.resolved = true
status_eq TicketStatus.closed TicketStatus.closed = true
status_eq _ _ = false

-- `status ? t.status === status : true`
unfoldable pub has_status : Option TicketStatus → Ticket → Bool
unfolding status_eq
has_status none t = true
has_status (some s) t = status_eq t.status s

unfoldable pub find_all_tickets :
    (String → ℤ) → Option TicketStatus → TicketingRepository → List Ticket
find_all_tickets time_of status r =
    sort_down (λ t. time_of t.created_at) (filter_by (has_status status) (values r.tickets))

abbrev pub add_comment : TicketComment → Repo TicketComment
add_comment c = do modify (λ r. record r { comments = insert c.id c r.comments }); pure c

-- The order of rising dates is the one of falling negated dates.
unfoldable pub find_comments_by_ticket :
    (String → ℤ) → String → TicketingRepository → List TicketComment
find_comments_by_ticket time_of ticket_id r =
    sort_down (λ c. pos 0 -ℤ time_of c.created_at)
      (filter_by (λ c. c.ticket_id == ticket_id) (values r.comments))

abbrev pub create_assignment : TicketAssignment → Repo TicketAssignment
create_assignment a = do
  modify (λ r. record r { assignments = insert a.id a r.assignments })
  pure a

unfoldable pub find_assignments_by_ticket :
    (String → ℤ) → String → TicketingRepository → List TicketAssignment
find_assignments_by_ticket time_of ticket_id r =
    sort_down (λ a. time_of a.assigned_at)
      (filter_by (λ a. a.ticket_id == ticket_id) (values r.assignments))

abbrev pub create_sla : TicketSla → Repo TicketSla
create_sla s = do modify (λ r. record r { slas = insert s.ticket_id s r.slas }); pure s

abbrev pub update_sla : TicketSla → Repo TicketSla
update_sla s r =
    if is_present (lookup s.ticket_id r.slas)
    then (ok s, record r { slas = insert s.ticket_id s r.slas })
    else (err (fault "SLA" s.ticket_id), r)

abbrev pub find_sla_by_ticket : String → TicketingRepository → Option TicketSla
find_sla_by_ticket ticket_id r = lookup ticket_id r.slas

abbrev pub find_breached_or_pending_slas : TicketingRepository → List TicketSla
find_breached_or_pending_slas r = filter_by (λ s. is_empty s.resolved_at) (values r.slas)
