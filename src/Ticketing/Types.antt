-- ===== src/Ticketing/Types.antt =====
-- apps/api/src/modules/ticketing/domain/ticketing.types.ts and the DTO classes of
-- apps/api/src/modules/ticketing/dto. An absent optional text is the empty text, an absent number,
-- or a value that is no number, `none`.
use autonomous_enterprise.Shared.{String, Bool, Option, List}
use autonomous_enterprise.Shared.Int.{ℤ}

pub data TicketPriority : Type 0 where
  low medium high critical : TicketPriority

-- `opened` is the text OPEN.
pub data TicketStatus : Type 0 where
  opened triaged assigned in_progress escalated human_review resolved closed : TicketStatus

pub record Ticket : Type 0 where
  pub id : String
  pub workflow_id : String
  pub title : String
  pub description : String
  pub source : String
  pub priority : TicketPriority
  pub status : TicketStatus
  pub assigned_to : String
  pub created_at : String
  pub updated_at : String

pub record TicketComment : Type 0 where
  pub id : String
  pub ticket_id : String
  pub author_id : String
  pub body : String
  pub created_at : String

pub record TicketAssignment : Type 0 where
  pub id : String
  pub ticket_id : String
  pub assignee_id : String
  pub assigned_by : String
  pub assigned_at : String

pub record TicketSla : Type 0 where
  pub id : String
  pub ticket_id : String
  pub response_due_at : String
  pub resolution_due_at : String
  pub responded_at : String
  pub resolved_at : String
  pub response_breached : Bool
  pub resolution_breached : Bool
  pub created_at : String
  pub updated_at : String

-- The fields of the ticket itself stand under `ticket`.
pub record TicketWithDetails : Type 0 where
  pub ticket : Ticket
  pub comments : List TicketComment
  pub assignments : List TicketAssignment
  pub sla : Option TicketSla

pub record AddCommentDto : Type 0 where
  pub author_id : String
  pub body : String

pub record AssignTicketDto : Type 0 where
  pub assignee_id : String
  pub assigned_by : String

pub record AttachSlaDto : Type 0 where
  pub response_due_in_minutes : Option ℤ
  pub resolution_due_in_minutes : Option ℤ

pub record CreateTicketDto : Type 0 where
  pub title : String
  pub description : String
  pub source : String
  pub priority : Option TicketPriority
  pub workflow_id : String

pub record UpdateTicketStatusDto : Type 0 where
  pub status : TicketStatus
  pub assigned_to : String
