-- ===== src/Ticketing/Writes.antt =====
-- What each call of the ticketing service does to the tickets.
use autonomous_enterprise.Shared.{
  arith, ◌≡◌, refl, lookup, insert, inl, inr, Option-cases, String, true, [], ◌∷◌, List, none, some,
  after, Store, ◌⊎◌, or_text, or_else,
}
use autonomous_enterprise.Shared.Int.{ℤ}
use autonomous_enterprise.Ticketing.Types.{
  Ticket, TicketStatus, TicketPriority, TicketSla, CreateTicketDto, UpdateTicketStatusDto,
  AddCommentDto, AssignTicketDto, AttachSlaDto,
}
use autonomous_enterprise.Ticketing.Repository.{
  TicketingRepository, status_eq, find_breached_or_pending_slas,
}
use autonomous_enterprise.Ticketing.Tickets.{
  includes, new_ticket, create_ticket, create_system_ticket, create_ticket_direct, moved_ticket,
  update_status, add_comment, assigned_status, assigned_ticket, assign_ticket,
}
use autonomous_enterprise.Ticketing.Slas.{
  attach_sla, record_response, record_resolution, check_slas, check_sla_breaches,
}
use autonomous_enterprise.Ticketing.Steps.{
  follows, Step, creates, creates_for_system, moves, comments, assigns, attaches, responds,
  resolves, checks,
}

check_slas_same :
    (time_of : String → ℤ) (iso : ℤ → String) (now : ℤ) (ss : List TicketSla)
    (r : TicketingRepository)
    → (after (check_slas time_of iso now ss r)).tickets ≡ r.tickets
unfolding check_slas
check_slas_same time_of iso now [] r = refl
check_slas_same time_of iso now (s ∷ ss) r = grind (arith, check_slas_same time_of iso now ss)

-- What a call does to the tickets: nothing, a new one, or an advance of a stored one.
pub data Written (r : TicketingRepository) (m : Store Ticket) : Type 0 where
  same : m ≡ r.tickets → Written r m
  new : (x : Ticket) → lookup x.id r.tickets ≡ none → m ≡ insert x.id x r.tickets → Written r m
  changed :
      (id : String) (x y : Ticket)
      → lookup id r.tickets ≡ some x
      → y.id ≡ x.id
      → follows x.status y.status ≡ true
      → m ≡ insert x.id y r.tickets
      → Written r m

create_written :
    (trim : String → String) (now id : String) (dto : CreateTicketDto) (r : TicketingRepository)
    → let x =
        new_ticket now id
          (trim dto.title)
          dto.description
          (or_text dto.source "MANUAL")
          (or_else dto.priority TicketPriority.medium)
          dto.workflow_id in
      ((after (create_ticket trim now id dto r)).tickets ≡ r.tickets)
      ⊎ ((after (create_ticket trim now id dto r)).tickets ≡ insert id x r.tickets)
unfolding create_ticket new_ticket
create_written trim now id dto r = ground arith

move_written :
    (now id : String) (dto : UpdateTicketStatusDto) (r : TicketingRepository) (x : Ticket)
    → lookup id r.tickets ≡ some x
    → ((after (update_status now id dto r)).tickets ≡ r.tickets)
      ⊎ ((follows x.status (moved_ticket now dto x).status ≡ true)
          × ((after (update_status now id dto r)).tickets
              ≡ insert x.id (moved_ticket now dto x) r.tickets))
unfolding update_status moved_ticket follows
move_written now id dto r x found = ground arith

move_unknown :
    (now id : String) (dto : UpdateTicketStatusDto) (r : TicketingRepository)
    → lookup id r.tickets ≡ none
    → (after (update_status now id dto r)).tickets ≡ r.tickets
unfolding update_status
move_unknown now id dto r unknown = ground arith

assigned_follows : (s : TicketStatus) → follows s (assigned_status s) ≡ true
unfolding follows includes status_eq
assigned_follows s = ground arith

assign_written :
    (now id ticket_id : String) (dto : AssignTicketDto) (r : TicketingRepository) (x : Ticket)
    → lookup ticket_id r.tickets ≡ some x
    → let m = (after (assign_ticket now id ticket_id dto r)).tickets in
      (m ≡ r.tickets) ⊎ (m ≡ insert x.id (assigned_ticket now dto.assignee_id x) r.tickets)
unfolding assign_ticket assigned_ticket
assign_written now id ticket_id dto r x found = ground arith

assign_unknown :
    (now id ticket_id : String) (dto : AssignTicketDto) (r : TicketingRepository)
    → lookup ticket_id r.tickets ≡ none
    → (after (assign_ticket now id ticket_id dto r)).tickets ≡ r.tickets
unfolding assign_ticket
assign_unknown now id ticket_id dto r unknown = ground arith

comment_same :
    (trim : String → String) (now id ticket_id : String) (dto : AddCommentDto)
    (r : TicketingRepository)
    → (after (add_comment trim now id ticket_id dto r)).tickets ≡ r.tickets
unfolding add_comment
comment_same trim now id ticket_id dto r = ground arith

attach_same :
    (iso : ℤ → String) (now : ℤ) (id ticket_id : String) (dto : AttachSlaDto)
    (r : TicketingRepository)
    → (after (attach_sla iso now id ticket_id dto r)).tickets ≡ r.tickets
unfolding attach_sla
attach_same iso now id ticket_id dto r = ground arith

response_same :
    (time_of : String → ℤ) (iso : ℤ → String) (now : ℤ) (ticket_id : String)
    (r : TicketingRepository)
    → (after (record_response time_of iso now ticket_id r)).tickets ≡ r.tickets
unfolding record_response
response_same time_of iso now ticket_id r = ground arith

resolution_same :
    (time_of : String → ℤ) (iso : ℤ → String) (now : ℤ) (ticket_id : String)
    (r : TicketingRepository)
    → (after (record_resolution time_of iso now ticket_id r)).tickets ≡ r.tickets
unfolding record_resolution
resolution_same time_of iso now ticket_id r = ground arith

pub Step-Written : {r t : TicketingRepository} → Step r t → Written r t.tickets
unfolding create_system_ticket create_ticket_direct check_sla_breaches moved_ticket assigned_ticket
    new_ticket
Step-Written {r} (creates trim now id dto fresh) = elim (create_written trim now id dto r) [
  | inl e ↦ same e
  | inr e ↦ new _ fresh e
]
Step-Written {r} (creates_for_system now id title description source priority workflow_id fresh) =
    new (new_ticket now id title description source priority workflow_id) fresh refl
Step-Written {r} (moves now id dto) = elim (Option-cases (lookup id r.tickets)) [
  | inl unknown ↦ same (move_unknown now id dto r unknown)
  | inr (x, found) ↦ elim (move_written now id dto r x found) [
    | inl e ↦ same e
    | inr (f, e) ↦ changed id x (moved_ticket now dto x) found refl f e
  ]
]
Step-Written {r} (comments trim now id ticket_id dto) =
    same (comment_same trim now id ticket_id dto r)
Step-Written {r} (assigns now id ticket_id dto) = elim (Option-cases (lookup ticket_id r.tickets)) [
  | inl unknown ↦ same (assign_unknown now id ticket_id dto r unknown)
  | inr (x, found) ↦ elim (assign_written now id ticket_id dto r x found) [
    | inl e ↦ same e
    | inr e ↦
        changed ticket_id x (assigned_ticket now dto.assignee_id x) found refl
          (assigned_follows x.status) e
  ]
]
Step-Written {r} (attaches iso now id ticket_id dto) = same (attach_same iso now id ticket_id dto r)
Step-Written {r} (responds time_of iso now ticket_id) =
    same (response_same time_of iso now ticket_id r)
Step-Written {r} (resolves time_of iso now ticket_id) =
    same (resolution_same time_of iso now ticket_id r)
Step-Written {r} (checks time_of iso now) =
    same (check_slas_same time_of iso now (find_breached_or_pending_slas r) r)
