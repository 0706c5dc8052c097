-- ===== src/WorkflowTask/Tasks.antt =====
-- apps/api/src/modules/workflow-task/workflow-task.service.ts: the methods of the class
-- WorkflowTaskService, and apps/api/src/modules/workflow-task/infrastructure/in-memory-workflow-task.repository.ts:
-- the array of tasks. `now` is the clock in milliseconds, `iso` its `toISOString()` text, `time_of`
-- is `new Date(text).getTime()`, `number_text` prints a number; `id` and `ticket_id` are texts that
-- `Date.now()` and `Math.random()` make up. The repository hands out the stored task itself, and each
-- method writes the task that it has changed, so that a task is a value here.
use autonomous_enterprise.Shared.{
  Action, not_found, fault, pure, ok, err, gets, modify, or_throw, ◌>>=◌, ◌>>◌, is_present, or_else,
  String, ◌==◌, Bool, if◌then◌else◌, Option, none, some, List, [], ◌∷◌, ◌++◌, filter_by, ⊤,
}
use autonomous_enterprise.Shared.Int.{ℤ, pos, ◌+ℤ◌}
use autonomous_enterprise.Shared.Lists.{find_first, replace_first}
use autonomous_enterprise.Audit.{AuditStatus, log_audit}
use autonomous_enterprise.WorkflowTask.Types.{
  WorkflowTask, WorkflowTaskStatus, NewTask, TaskState, default_max_iterations,
  default_token_budget, default_time_budget_ms, default_min_confidence,
}

abbrev pub Tasks : Type 0 → Type 0
Tasks A = Action TaskState A

abbrev pub store_task : WorkflowTask → Tasks WorkflowTask
store_task t = do modify (λ r. record r { tasks = r.tasks ++ t ∷ [] }); pure t

abbrev pub has_id : String → WorkflowTask → Bool
has_id id t = t.id == id

abbrev pub find_task_by_id : String → TaskState → Option WorkflowTask
find_task_by_id id r = find_first (has_id id) r.tasks

abbrev pub update_task : WorkflowTask → Tasks WorkflowTask
update_task t r =
    if is_present (find_task_by_id t.id r)
    then (ok t, record r { tasks = replace_first (has_id t.id) t r.tasks })
    else (err (fault "WorkflowTask" t.id), r)

unfoldable pub find_tasks_by_workflow : String → TaskState → List WorkflowTask
find_tasks_by_workflow workflow_id r = filter_by (λ t. t.workflow_id == workflow_id) r.tasks

abbrev pub log : String → String → AuditStatus → String → Tasks ⊤
log workflow_id action status reasoning = modify (λ r. record r {
  audit =
      log_audit
        (record {
          workflow_id = workflow_id;
          action = action;
          status = status;
          reasoning = reasoning;
        })
        r.audit;
})

unfoldable pub new_task : (ℤ → String) → ℤ → String → NewTask → ℤ → WorkflowTask
new_task iso now id given time_budget = record {
  id = id;
  workflow_id = given.workflow_id;
  task_type = given.task_type;
  status = WorkflowTaskStatus.pending;
  max_iterations = given.max_iterations;
  iteration_count = some (pos 0);
  token_budget = given.token_budget;
  token_used = some (pos 0);
  time_budget_ms = given.time_budget_ms;
  min_confidence = given.min_confidence;
  confidence = given.confidence;
  deadline = iso (now +ℤ time_budget);
  payload = given.payload;
  result = "";
  idempotency_key = given.idempotency_key;
  escalation_ticket_id = "";
  created_at = iso now;
  updated_at = iso now;
}

-- `createTask` of an object. Its `limits` have all four keys, an absent one with the value
-- `undefined`, which the spread copies over the default; the date of an undefined time has no
-- `toISOString()` and throws.
unfoldable pub create_task : (ℤ → String) → ℤ → String → NewTask → Tasks WorkflowTask
unfolding new_task
create_task iso now id given = do
  time_budget ← or_throw given.time_budget_ms (fault "RangeError" "Invalid time value")
  saved ← store_task (new_task iso now id given time_budget)
  log given.workflow_id "WORKFLOW_TASK_CREATED" AuditStatus.success ""
  pure saved

-- The limits of a call with separate arguments: an absent key keeps its default.
unfoldable pub with_defaults : NewTask → NewTask
with_defaults given = record given {
  max_iterations = some (or_else given.max_iterations default_max_iterations);
  token_budget = some (or_else given.token_budget default_token_budget);
  time_budget_ms = some (or_else given.time_budget_ms default_time_budget_ms);
  min_confidence = some (or_else given.min_confidence default_min_confidence);
  confidence = none;
  idempotency_key = "";
}

-- `createTask` of separate arguments.
unfoldable pub create_task_of_type : (ℤ → String) → ℤ → String → NewTask → Tasks WorkflowTask
unfolding create_task with_defaults
create_task_of_type iso now id given = create_task iso now id (with_defaults given)

unfoldable pub get_task : String → Tasks WorkflowTask
get_task task_id = do or_throw (← gets (find_task_by_id task_id)) (not_found "WorkflowTask" task_id)

unfoldable pub completed_task : (ℤ → String) → ℤ → String → WorkflowTask → WorkflowTask
completed_task iso now result t = record t {
  status = WorkflowTaskStatus.completed;
  result = result;
  updated_at = iso now;
}

unfoldable pub complete_task : (ℤ → String) → ℤ → String → String → Tasks WorkflowTask
unfolding completed_task
complete_task iso now task_id result = do
  found ← gets (find_task_by_id task_id)
  t ← or_throw found (not_found "WorkflowTask" task_id)
  saved ← update_task (completed_task iso now result t)
  log t.workflow_id "WORKFLOW_TASK_COMPLETED" AuditStatus.success ""
  pure saved

-- The result is the object with the reason as its `error`.
unfoldable pub fail_task : (ℤ → String) → ℤ → String → String → Tasks WorkflowTask
fail_task iso now task_id reason = do
  found ← gets (find_task_by_id task_id)
  t ← or_throw found (not_found "WorkflowTask" task_id)
  saved ←
      update_task
        (record t { status = WorkflowTaskStatus.failed; result = reason; updated_at = iso now })
  log t.workflow_id "WORKFLOW_TASK_FAILED" AuditStatus.failure reason
  pure saved
