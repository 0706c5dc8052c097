-- ===== src/Ticketing/Steps.antt =====
-- The calls of the ticketing service, and how a status may change.
use autonomous_enterprise.Shared.{
  arith, ◌≡◌, lookup, All, String, ◌||◌, Bool, true, [], Option, none, some, after,
}
use autonomous_enterprise.Shared.Int.{ℤ}
use autonomous_enterprise.Ticketing.Types.{
  Ticket, TicketStatus, TicketPriority, CreateTicketDto, UpdateTicketStatusDto, AddCommentDto,
  AssignTicketDto, AttachSlaDto,
}
use autonomous_enterprise.Ticketing.Repository.{TicketingRepository, status_eq}
use autonomous_enterprise.Ticketing.Tickets.{
  valid_transitions, includes, create_ticket, create_system_ticket, update_status, add_comment,
  assign_ticket,
}
use autonomous_enterprise.Ticketing.Slas.{
  attach_sla, record_response, record_resolution, check_sla_breaches,
}

-- The status stays, or takes one of the valid transitions.
unfoldable pub follows : TicketStatus → TicketStatus → Bool
unfolding status_eq includes
follows a b = status_eq a b || includes (valid_transitions a) b

abbrev pub Advances : TicketStatus → Option Ticket → Type 0
Advances s none = ⊥
Advances s (some t) = follows s t.status ≡ true

pub follows_refl : (s : TicketStatus) → follows s s ≡ true
unfolding follows status_eq
follows_refl s = ground arith

abbrev pub IsKeyed : TicketingRepository → Type 0
IsKeyed r = All (λ id t. t.id ≡ id) r.tickets

unfoldable pub empty_ticketing : TicketingRepository
empty_ticketing = record { tickets = []; comments = []; assignments = []; slas = [] }

-- One call of the service that may write. The identifier of a new ticket is not in use.
pub data Step (r : TicketingRepository) : TicketingRepository → Type 0 where
  creates :
      (trim : String → String) (now id : String) (dto : CreateTicketDto)
      → lookup id r.tickets ≡ none
      → Step r (after (create_ticket trim now id dto r))
  creates_for_system :
      (now id title description source : String) (priority : TicketPriority) (workflow_id : String)
      → lookup id r.tickets ≡ none
      → Step r (after (create_system_ticket now id title description source priority workflow_id r))
  moves :
      (now id : String) (dto : UpdateTicketStatusDto) → Step r (after (update_status now id dto r))
  comments :
      (trim : String → String) (now id ticket_id : String) (dto : AddCommentDto)
      → Step r (after (add_comment trim now id ticket_id dto r))
  assigns :
      (now id ticket_id : String) (dto : AssignTicketDto)
      → Step r (after (assign_ticket now id ticket_id dto r))
  attaches :
      (iso : ℤ → String) (now : ℤ) (id ticket_id : String) (dto : AttachSlaDto)
      → Step r (after (attach_sla iso now id ticket_id dto r))
  responds :
      (time_of : String → ℤ) (iso : ℤ → String) (now : ℤ) (ticket_id : String)
      → Step r (after (record_response time_of iso now ticket_id r))
  resolves :
      (time_of : String → ℤ) (iso : ℤ → String) (now : ℤ) (ticket_id : String)
      → Step r (after (record_resolution time_of iso now ticket_id r))
  checks :
      (time_of : String → ℤ) (iso : ℤ → String) (now : ℤ)
      → Step r (after (check_sla_breaches time_of iso now r))

pub data Reach : TicketingRepository → Type 0 where
  start : Reach empty_ticketing
  next : {r t : TicketingRepository} → Reach r → Step r t → Reach t
