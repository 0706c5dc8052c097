-- ===== src/Ticketing/Tickets.antt =====
-- apps/api/src/modules/ticketing/ticketing.service.ts: the methods of the class TicketingService on
-- tickets, comments and assignments. `now` is the clock's text, `id` the text that `Date.now()` and
-- `Math.random()` make up, `trim` the method of that name on texts, `time_of` is
-- `new Date(text).getTime()`.
use autonomous_enterprise.Shared.{
  Action, not_found, bad_request, pure, gets, or_throw, throw_if, ◌>>=◌, ◌>>◌, is_empty, or_else,
  or_text, String, Bool, false, not, ◌||◌, if◌then◌else◌, Option, List, [], ◌∷◌,
}
use autonomous_enterprise.Shared.Int.{ℤ}
use autonomous_enterprise.Ticketing.Types.{
  Ticket, TicketStatus, TicketPriority, TicketComment, TicketAssignment, TicketWithDetails,
  CreateTicketDto, UpdateTicketStatusDto, AddCommentDto, AssignTicketDto,
}
use autonomous_enterprise.Ticketing.Repository
use autonomous_enterprise.Ticketing.Repository.{TicketingRepository, status_eq}

abbrev Tick : Type 0 → Type 0
Tick A = Action TicketingRepository A

-- VALID_TRANSITIONS
abbrev pub valid_transitions : TicketStatus → List TicketStatus
valid_transitions TicketStatus.opened =
    TicketStatus.triaged ∷ TicketStatus.assigned ∷ TicketStatus.escalated ∷ TicketStatus.closed ∷ []
valid_transitions TicketStatus.triaged =
    TicketStatus.assigned ∷ TicketStatus.escalated ∷ TicketStatus.closed ∷ []
valid_transitions TicketStatus.assigned =
    TicketStatus.in_progress ∷ TicketStatus.escalated ∷ TicketStatus.closed ∷ []
valid_transitions TicketStatus.in_progress =
    TicketStatus.resolved ∷ TicketStatus.escalated ∷ TicketStatus.closed ∷ []
valid_transitions TicketStatus.escalated = TicketStatus.human_review ∷ TicketStatus.closed ∷ []
valid_transitions TicketStatus.human_review = TicketStatus.resolved ∷ TicketStatus.closed ∷ []
valid_transitions TicketStatus.resolved = TicketStatus.closed ∷ []
valid_transitions TicketStatus.closed = []

-- `allowed.includes(status)`
unfoldable pub includes : List TicketStatus → TicketStatus → Bool
unfolding status_eq
includes [] s = false
includes (x ∷ xs) s = status_eq x s || includes xs s

abbrev pub find_ticket_or_throw : String → Tick Ticket
find_ticket_or_throw id = do
  found ← gets (Repository.find_ticket_by_id id)
  or_throw found (not_found "Ticket" id)

unfoldable pub new_ticket :
    String → String → String → String → String → TicketPriority → String → Ticket
new_ticket now id title description source priority workflow_id = record {
  id = id;
  workflow_id = workflow_id;
  title = title;
  description = description;
  source = source;
  priority = priority;
  status = TicketStatus.opened;
  assigned_to = "";
  created_at = now;
  updated_at = now;
}

unfoldable pub create_ticket : (String → String) → String → String → CreateTicketDto → Tick Ticket
unfolding new_ticket
create_ticket trim now id dto = do
  throw_if (is_empty dto.title || is_empty (trim dto.title))
      (bad_request "Ticket title is required")
  Repository.create_ticket (
      new_ticket now id (trim dto.title) dto.description (or_text dto.source "MANUAL")
        (or_else dto.priority TicketPriority.medium) dto.workflow_id)

unfoldable pub create_ticket_direct :
    String → String → String → String → String → TicketPriority → String → Tick Ticket
unfolding new_ticket
create_ticket_direct now id title description source priority workflow_id =
    Repository.create_ticket (new_ticket now id title description source priority workflow_id)

unfoldable pub create_system_ticket :
    String → String → String → String → String → TicketPriority → String → Tick Ticket
unfolding create_ticket_direct
create_system_ticket now id title description source priority workflow_id =
    create_ticket_direct now id title description source priority workflow_id

-- The ticket that `updateStatus` writes.
unfoldable pub moved_ticket : String → UpdateTicketStatusDto → Ticket → Ticket
moved_ticket now dto t = record t {
  status = dto.status;
  assigned_to = if is_empty dto.assigned_to then t.assigned_to else dto.assigned_to;
  updated_at = now;
}

unfoldable pub update_status : String → String → UpdateTicketStatusDto → Tick Ticket
unfolding moved_ticket
update_status now id dto = do
  t ← find_ticket_or_throw id
  throw_if (not (includes (valid_transitions t.status) dto.status))
      (bad_request "Invalid ticket status transition")
  Repository.update_ticket (moved_ticket now dto t)

unfoldable pub get_ticket : String → Tick Ticket
get_ticket id = find_ticket_or_throw id

unfoldable pub list_tickets : (String → ℤ) → Option TicketStatus → Tick (List Ticket)
list_tickets time_of status = gets (Repository.find_all_tickets time_of status)

unfoldable pub get_ticket_details : (String → ℤ) → String → Tick TicketWithDetails
get_ticket_details time_of id = do
  t ← find_ticket_or_throw id
  comments ← gets (Repository.find_comments_by_ticket time_of id)
  assignments ← gets (Repository.find_assignments_by_ticket time_of id)
  sla ← gets (Repository.find_sla_by_ticket id)
  pure (record { ticket = t; comments = comments; assignments = assignments; sla = sla })

unfoldable pub get_ticket_with_details : (String → ℤ) → String → Tick TicketWithDetails
unfolding get_ticket_details
get_ticket_with_details time_of id = get_ticket_details time_of id

unfoldable pub add_comment :
    (String → String) → String → String → String → AddCommentDto → Tick TicketComment
add_comment trim now id ticket_id dto = do
  find_ticket_or_throw ticket_id
  throw_if (is_empty dto.author_id || is_empty dto.body || is_empty (trim dto.body))
      (bad_request "Comment authorId and body are required")
  Repository.add_comment (record {
    id = id;
    ticket_id = ticket_id;
    author_id = dto.author_id;
    body = trim dto.body;
    created_at = now;
  })

unfoldable pub list_comments : (String → ℤ) → String → Tick (List TicketComment)
list_comments time_of ticket_id = do
  find_ticket_or_throw ticket_id
  gets (Repository.find_comments_by_ticket time_of ticket_id)

-- `ticket.status === 'OPEN' || ticket.status === 'TRIAGED'`, then `ASSIGNED`.
abbrev pub assigned_status : TicketStatus → TicketStatus
assigned_status TicketStatus.opened = TicketStatus.assigned
assigned_status TicketStatus.triaged = TicketStatus.assigned
assigned_status s = s

unfoldable pub assigned_ticket : String → String → Ticket → Ticket
assigned_ticket now assignee t = record t {
  assigned_to = assignee;
  status = assigned_status t.status;
  updated_at = now;
}

unfoldable pub assign_ticket : String → String → String → AssignTicketDto → Tick TicketAssignment
unfolding assigned_ticket
assign_ticket now id ticket_id dto = do
  t ← find_ticket_or_throw ticket_id
  throw_if (is_empty dto.assignee_id) (bad_request "assigneeId is required")
  created ← Repository.create_assignment (record {
    id = id;
    ticket_id = ticket_id;
    assignee_id = dto.assignee_id;
    assigned_by = dto.assigned_by;
    assigned_at = now;
  })
  Repository.update_ticket (assigned_ticket now dto.assignee_id t)
  pure created

unfoldable pub list_assignments : (String → ℤ) → String → Tick (List TicketAssignment)
list_assignments time_of ticket_id = do
  find_ticket_or_throw ticket_id
  gets (Repository.find_assignments_by_ticket time_of ticket_id)
