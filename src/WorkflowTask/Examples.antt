-- ===== src/WorkflowTask/Examples.antt =====
-- A run of the task service on one task.
use autonomous_enterprise.Shared.{◌≡◌, refl, after, some, none, String, [], ◌∷◌, or_else, List}
use autonomous_enterprise.Shared.Int.{ℤ, pos, ◌≤ℤ◌, ◌-ℤ◌, max_ℤ}
use autonomous_enterprise.Ticketing.Repository.{TicketingRepository}
use autonomous_enterprise.WorkflowTask.Types.{
  NewTask, WorkflowTask, TaskState, default_max_iterations,
}
use autonomous_enterprise.WorkflowTask.Tasks.{
  new_task, create_task_of_type, with_defaults, find_task_by_id,
}
use autonomous_enterprise.WorkflowTask.Bounds.{Attempt, retries, retries_bound}

abbrev time_of : String → ℤ
time_of text = pos 100000

abbrev iso : ℤ → String
iso time = "t"

abbrev number_text : ℤ → String
number_text n = "n"

abbrev no_tickets : TicketingRepository
no_tickets = record { tickets = []; comments = []; assignments = []; slas = [] }

abbrev no_tasks : TaskState
no_tasks = record { tasks = []; ticketing = no_tickets; audit = [] }

abbrev forecast : NewTask
forecast = record {
  workflow_id = "w";
  task_type = "forecast";
  max_iterations = none;
  token_budget = none;
  time_budget_ms = none;
  min_confidence = none;
  confidence = none;
  payload = "";
  idempotency_key = "";
}

abbrev started : TaskState
started = after (create_task_of_type iso (pos 0) "k" forecast no_tasks)

abbrev new_forecast : WorkflowTask
new_forecast = new_task iso (pos 0) "k" (with_defaults forecast) (pos 10000)

abbrev unsure : Attempt
unsure = record { now = pos 5; ticket_id = "x"; confidence = pos 500; token_used = pos 100 }

started-found : find_task_by_id "k" started ≡ some new_forecast
unfolding new_task autonomous_enterprise.Shared.Lists.find_first create_task_of_type
started-found = refl

new_forecast-key : new_forecast.id ≡ "k"
unfolding new_task
new_forecast-key = refl

retries_bound_example :
    pos (retries time_of iso number_text "k" (unsure ∷ unsure ∷ unsure ∷ []) started)
    ≤ℤ max_ℤ (pos 0) (
        or_else new_forecast.max_iterations default_max_iterations
        -ℤ or_else new_forecast.iteration_count (pos 0))
retries_bound_example =
    retries_bound time_of iso number_text "k" (unsure ∷ unsure ∷ unsure ∷ []) started new_forecast
      started-found new_forecast-key
