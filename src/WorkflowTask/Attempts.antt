-- ===== src/WorkflowTask/Attempts.antt =====
-- apps/api/src/modules/workflow-task/workflow-task.service.ts: the method `recordAttempt` of the class
-- WorkflowTaskService. `now` is the clock in milliseconds, `iso` its `toISOString()` text, `time_of`
-- is `new Date(text).getTime()`, `number_text` prints a number, `ticket_id` is a text that `Date.now()`
-- and `Math.random()` make up.
use autonomous_enterprise.Audit.{AuditStatus}
use autonomous_enterprise.Shared.{
  not_found, pure, gets, or_throw, on_part, ◌>>=◌, ◌>>◌, is_empty, or_else, String, ◌<>◌, Bool,
  true, false, not, ◌&&◌, ◌||◌, if◌then◌else◌, Option, none, some, List, [], ◌∷◌, ◌++◌,
}
use autonomous_enterprise.Shared.Int.{ℤ, pos, ◌+ℤ◌, ltb_ℤ, leb_ℤ}
use autonomous_enterprise.Ticketing.Types.{TicketPriority}
use autonomous_enterprise.Ticketing.Tickets.{create_system_ticket}
use autonomous_enterprise.WorkflowTask.Types.{
  WorkflowTask, WorkflowTaskStatus, execute, retry, circuit_broken, ReEvaluationOutcome,
  default_max_iterations, default_token_budget, default_min_confidence,
}
use autonomous_enterprise.WorkflowTask.Tasks.{Tasks, find_task_by_id, update_task, log}

unfoldable pub attempted_task : (ℤ → String) → ℤ → ℤ → ℤ → WorkflowTask → WorkflowTask
attempted_task iso now confidence token_used t = record t {
  iteration_count = some (or_else t.iteration_count (pos 0) +ℤ pos 1);
  token_used = some (or_else t.token_used (pos 0) +ℤ token_used);
  confidence = some confidence;
  updated_at = iso now;
}

abbrev pub is_past_deadline : (String → ℤ) → ℤ → WorkflowTask → Bool
is_past_deadline time_of now t = not (is_empty t.deadline) && ltb_ℤ (time_of t.deadline) now

abbrev pub is_iterations_exceeded : WorkflowTask → Bool
is_iterations_exceeded t =
    leb_ℤ (or_else t.max_iterations default_max_iterations) (or_else t.iteration_count (pos 0))

abbrev pub is_tokens_exceeded : WorkflowTask → Bool
is_tokens_exceeded t =
    leb_ℤ (or_else t.token_budget default_token_budget) (or_else t.token_used (pos 0))

abbrev pub is_escalated : WorkflowTaskStatus → Bool
is_escalated WorkflowTaskStatus.escalated = true
is_escalated _ = false

-- A number in a template literal: an absent one prints as `undefined`.
abbrev shown : (ℤ → String) → Option ℤ → String
shown number_text none = "undefined"
shown number_text (some n) = number_text n

abbrev circuit_breaker_reasons : (String → ℤ) → (ℤ → String) → ℤ → WorkflowTask → List String
circuit_breaker_reasons time_of number_text now t =
    (if is_past_deadline time_of now t then "Time budget expired" ∷ [] else [])
    ++ (if is_iterations_exceeded t
        then ("Max iterations (" <> shown number_text t.max_iterations <> ") reached") ∷ []
        else [])
    ++ (if is_tokens_exceeded t
        then ("Token budget (" <> shown number_text t.token_budget <> ") exceeded") ∷ []
        else [])

-- `texts.join(separator)`
unfoldable pub join : String → List String → String
join separator [] = ""
join separator (x ∷ []) = x
join separator (x ∷ y ∷ ys) = x <> separator <> join separator (y ∷ ys)

-- The part of `recordAttempt` under its bounds' test.
unfoldable pub break_circuit :
    (String → ℤ)
    → (ℤ → String)
    → (ℤ → String)
    → ℤ
    → String
    → WorkflowTask
    → Tasks ReEvaluationOutcome
break_circuit time_of iso number_text now ticket_id t =
    if is_escalated t.status
    then (do
      update_task t
      pure (record { task = t; outcome = circuit_broken; ticket_id = t.escalation_ticket_id }))
    else (do
      let escalated = record t { status = WorkflowTaskStatus.escalated }
      update_task escalated
      let reasons = circuit_breaker_reasons time_of number_text now t
      ticket ←
          on_part (λ r. r.ticketing) (λ s r. record r { ticketing = s })
            (create_system_ticket (iso now) ticket_id
              ("Circuit Breaker: Task " <> t.id <> " (" <> t.task_type <> ") failed bounds")
              ("Autonomous agent execution exceeded safety boundaries: "
                <> join "; " reasons
                <> ". State persisted for human review.")
              "CircuitBreaker" TicketPriority.high t.workflow_id)
      let referred = record escalated { escalation_ticket_id = ticket.id }
      update_task referred
      log t.workflow_id "CIRCUIT_BREAKER_TRIGGERED" AuditStatus.failure (join ", " reasons)
      pure (record { task = referred; outcome = circuit_broken; ticket_id = ticket.id }))

-- The part of `recordAttempt` within the bounds.
unfoldable pub weigh_attempt : ℤ → WorkflowTask → Tasks ReEvaluationOutcome
weigh_attempt confidence t =
    if ltb_ℤ confidence (or_else t.min_confidence default_min_confidence)
    then (do
      let waiting = record t { status = WorkflowTaskStatus.in_progress }
      update_task waiting
      log t.workflow_id "TASK_REEVALUATION_REQUESTED" AuditStatus.success ""
      pure (record { task = waiting; outcome = retry; ticket_id = "" }))
    else (do
      let done = record t { status = WorkflowTaskStatus.completed }
      update_task done
      pure (record { task = done; outcome = execute; ticket_id = "" }))

abbrev pub is_out_of_bounds : (String → ℤ) → ℤ → WorkflowTask → Bool
is_out_of_bounds time_of now t =
    is_past_deadline time_of now t || is_iterations_exceeded t || is_tokens_exceeded t

unfoldable pub judge_attempt :
    (String → ℤ)
    → (ℤ → String)
    → (ℤ → String)
    → ℤ
    → String
    → ℤ
    → WorkflowTask
    → Tasks ReEvaluationOutcome
unfolding break_circuit weigh_attempt
judge_attempt time_of iso number_text now ticket_id confidence t =
    if is_out_of_bounds time_of now t
    then break_circuit time_of iso number_text now ticket_id t
    else weigh_attempt confidence t

unfoldable pub record_attempt :
    (String → ℤ)
    → (ℤ → String)
    → (ℤ → String)
    → ℤ
    → String
    → String
    → ℤ
    → ℤ
    → Tasks ReEvaluationOutcome
unfolding attempted_task judge_attempt
record_attempt time_of iso number_text now ticket_id task_id confidence token_used = do
  found ← gets (find_task_by_id task_id)
  old ← or_throw found (not_found "WorkflowTask" task_id)
  let t = attempted_task iso now confidence token_used old
  judge_attempt time_of iso number_text now ticket_id confidence t
