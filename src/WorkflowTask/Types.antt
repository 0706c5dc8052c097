-- ===== src/WorkflowTask/Types.antt =====
-- apps/api/src/modules/workflow-task/domain/workflow-task.types.ts and the interfaces of
-- apps/api/src/modules/workflow-task/workflow-task.service.ts. A confidence counts thousandths, so
-- that the default 0.85 is 850; an absent number is `none`, a value of unknown type a text.
use autonomous_enterprise.Shared.{String, Bool, true, false, Option, List}
use autonomous_enterprise.Shared.Int.{ℤ, pos}
use autonomous_enterprise.Audit.{AuditRecord}
use autonomous_enterprise.Ticketing.Repository.{TicketingRepository}

pub data WorkflowTaskStatus : Type 0 where
  pending in_progress awaiting_approval completed failed escalated cancelled timed_out :
      WorkflowTaskStatus

pub record WorkflowTask : Type 0 where
  pub id : String
  pub workflow_id : String
  pub task_type : String
  pub status : WorkflowTaskStatus
  pub max_iterations : Option ℤ
  pub iteration_count : Option ℤ
  pub token_budget : Option ℤ
  pub token_used : Option ℤ
  pub time_budget_ms : Option ℤ
  pub min_confidence : Option ℤ
  pub confidence : Option ℤ
  pub deadline : String
  pub payload : String
  pub result : String
  pub idempotency_key : String
  pub escalation_ticket_id : String
  pub created_at : String
  pub updated_at : String

-- DEFAULT_TASK_LIMITS
abbrev pub default_max_iterations : ℤ
default_max_iterations = pos 3

abbrev pub default_token_budget : ℤ
default_token_budget = pos 5000

abbrev pub default_time_budget_ms : ℤ
default_time_budget_ms = pos 10000

abbrev pub default_min_confidence : ℤ
default_min_confidence = pos 850

-- The object that `createTask` takes.
pub record NewTask : Type 0 where
  pub workflow_id : String
  pub task_type : String
  pub max_iterations : Option ℤ
  pub token_budget : Option ℤ
  pub time_budget_ms : Option ℤ
  pub min_confidence : Option ℤ
  pub confidence : Option ℤ
  pub payload : String
  pub idempotency_key : String

pub data Outcome : Type 0 where
  execute retry circuit_broken : Outcome

abbrev pub is_retry : Outcome → Bool
is_retry retry = true
is_retry _ = false

pub record ReEvaluationOutcome : Type 0 where
  pub task : WorkflowTask
  pub outcome : Outcome
  pub ticket_id : String

-- The repository of tasks, with the services that the task service calls.
pub record TaskState : Type 0 where
  pub tasks : List WorkflowTask
  pub ticketing : TicketingRepository
  pub audit : List AuditRecord
