-- ===== src/Ticketing/Examples.antt =====
-- Runs of the ticketing service on one ticket.
use autonomous_enterprise.Shared.{
  ◌≡◌, refl, lookup, after, result, ok, err, some, none, String, ◌≤◌, ◌+◌, [], ◌∷◌,
}
use autonomous_enterprise.Ticketing.Types.{
  Ticket, TicketStatus, TicketPriority, CreateTicketDto, UpdateTicketStatusDto, AssignTicketDto,
}
use autonomous_enterprise.Ticketing.Repository.{TicketingRepository}
use autonomous_enterprise.Ticketing.Tickets.{
  new_ticket, create_ticket, update_status, assign_ticket,
}
use autonomous_enterprise.Ticketing.Steps.{
  Advances, empty_ticketing, creates, assigns, Reach, start, next,
}
use autonomous_enterprise.Ticketing.Lifecycle.{Step-Advances, rank, accepted, accepted_bound}

abbrev same_text : String → String
same_text text = text

abbrev leak : CreateTicketDto
leak = record { title = "Leak"; description = ""; source = ""; priority = none; workflow_id = "" }

abbrev to_ann : AssignTicketDto
to_ann = record { assignee_id = "ann"; assigned_by = "" }

abbrev to_status : TicketStatus → UpdateTicketStatusDto
to_status status = record { status = status; assigned_to = "" }

abbrev filed : TicketingRepository
filed = after (create_ticket same_text "t1" "k" leak empty_ticketing)

abbrev filed_leak : Ticket
filed_leak = new_ticket "t1" "k" "Leak" "" "MANUAL" TicketPriority.medium ""

filed-Reach : Reach filed
unfolding empty_ticketing lookup
filed-Reach = next start (creates same_text "t1" "k" leak refl)

filed-found : lookup "k" filed.tickets ≡ some filed_leak
unfolding empty_ticketing lookup create_ticket autonomous_enterprise.Shared.insert
filed-found = refl

Step-Advances_example :
    Advances TicketStatus.opened
      (lookup "k" (after (assign_ticket "t2" "a" "k" to_ann filed)).tickets)
unfolding new_ticket
Step-Advances_example =
    Step-Advances "k" filed_leak filed-Reach filed-found (assigns "t2" "a" "k" to_ann)

-- The second call goes back and is refused.
accepted_run :
    accepted "t2" "k"
      (to_status TicketStatus.triaged
        ∷ to_status TicketStatus.opened
        ∷ to_status TicketStatus.closed
        ∷ [])
      filed
    ≡ 2
unfolding empty_ticketing accepted update_status lookup create_ticket
    autonomous_enterprise.Shared.insert autonomous_enterprise.Ticketing.Tickets.includes
accepted_run = refl

filed_leak-key : filed_leak.id ≡ "k"
unfolding new_ticket
filed_leak-key = refl

accepted_bound_example :
    accepted "t2" "k" (to_status TicketStatus.triaged ∷ to_status TicketStatus.closed ∷ []) filed
      + rank filed_leak.status
    ≤ 7
accepted_bound_example =
    accepted_bound "t2" "k" (to_status TicketStatus.triaged ∷ to_status TicketStatus.closed ∷ [])
      filed filed_leak filed-found filed_leak-key
