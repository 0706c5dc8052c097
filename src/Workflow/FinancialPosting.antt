-- ===== src/Workflow/FinancialPosting.antt =====
-- apps/api/src/modules/workflow/financial-posting.service.ts: the class FinancialPostingService over
-- the accounting repository, the tasks with their audit log, and the outbox. `clock` is the clock in
-- milliseconds and `iso` its text; `workflow_id`, `task_id` and `event_id` are texts that `Date.now()`
-- and `Math.random()` make up; `number_text` prints a number. An amount counts millionths. An absent
-- text is the empty text; payload and result of the task and the request id of a response are left
-- out.
use autonomous_enterprise.Shared.{
  Action, bad_request, pure, gets, throw_if, modify, on_part, or_existing, ◌>>=◌, ◌>>◌, is_empty,
  or_text, or_else, String, Bool, true, false, Option, none, some, List, [], ◌∷◌, Store, lookup,
  insert, if◌then◌else◌, filter_by,
}
use autonomous_enterprise.Shared.Int.{ℤ, pos, ◌-ℤ◌, ltb_ℤ, abs}
use autonomous_enterprise.Shared.Lists.{total}
use autonomous_enterprise.Audit.{AuditStatus}
use autonomous_enterprise.Outbox.{OutboxEvent, publish}
use autonomous_enterprise.Policy.{
  PolicyDecision, PolicyEvaluationResult, auto_approve, require_human_approval, reject,
  evaluate_financial_posting_policy,
}
use autonomous_enterprise.Accounting.Types.{
  Journal, JournalEntry, JournalStatus, debit, credit, other,
}
use autonomous_enterprise.Accounting.Repository.{AccountingRepository}
use autonomous_enterprise.Accounting.Journals.{is_posted, get_journal, post_journal}
use autonomous_enterprise.WorkflowTask.Types.{
  NewTask, WorkflowTaskStatus, TaskState, default_min_confidence,
}
use autonomous_enterprise.WorkflowTask.Tasks.{log, create_task, complete_task}

pub record ProcessFinancialPostingDto : Type 0 where
  pub journal_id : String
  pub auto_approval_threshold : Option ℤ
  pub confidence : Option ℤ
  pub idempotency_key : String

pub record FinancialPostingResult : Type 0 where
  pub workflow_id : String
  pub journal_id : String
  pub task_id : String
  pub policy : PolicyEvaluationResult
  pub journal_status : JournalStatus
  pub idempotency_key : String
  pub timestamp : String

-- What the service and the services that it calls keep; the audit log is with the tasks.
pub record PostingState : Type 0 where
  pub accounting : AccountingRepository
  pub work : TaskState
  pub outbox : List OutboxEvent
  pub idempotency_store : Store FinancialPostingResult

abbrev Posting : Type 0 → Type 0
Posting A = Action PostingState A

module _ {A : Type 0} where
  abbrev in_accounting : Action AccountingRepository A → Posting A
  in_accounting a = on_part (λ s. s.accounting) (λ p s. record s { accounting = p }) a

  abbrev pub in_work : Action TaskState A → Posting A
  in_work a = on_part (λ s. s.work) (λ w s. record s { work = w }) a

  abbrev in_outbox : Action (List OutboxEvent) A → Posting A
  in_outbox a = on_part (λ s. s.outbox) (λ o s. record s { outbox = o }) a

abbrev pub is_debit : JournalEntry → Bool
is_debit e = elim e.direction [ debit ↦ true | credit ↦ false | other text ↦ false ]

abbrev pub is_credit : JournalEntry → Bool
is_credit e = elim e.direction [ debit ↦ false | credit ↦ true | other text ↦ false ]

abbrev pub total_debit : Journal → ℤ
total_debit j = total (λ e. e.amount) (filter_by is_debit j.entries)

abbrev pub total_credit : Journal → ℤ
total_credit j = total (λ e. e.amount) (filter_by is_credit j.entries)

-- `Math.abs(totalDebit - totalCredit) < 0.001`
unfoldable pub is_balanced : Journal → Bool
is_balanced j = ltb_ℤ (pos (abs (total_debit j -ℤ total_credit j))) (pos 1000)

abbrev pub default_posting_threshold : ℤ
default_posting_threshold = pos 10000000000000

abbrev pub posting_task : String → ProcessFinancialPostingDto → String → NewTask
posting_task workflow_id dto key = record {
  workflow_id = workflow_id;
  task_type = "FINANCIAL_POSTING";
  max_iterations = some (pos 3);
  token_budget = some (pos 5000);
  time_budget_ms = some (pos 30000);
  min_confidence = some default_min_confidence;
  confidence = dto.confidence;
  payload = "";
  idempotency_key = key;
}

-- `task.status === 'FAILED' || task.status === 'TIMED_OUT'`
abbrev pub is_given_up : WorkflowTaskStatus → Bool
is_given_up WorkflowTaskStatus.failed = true
is_given_up WorkflowTaskStatus.timed_out = true
is_given_up _ = false

unfoldable pub posting_policy :
    (ℤ → String) → String → ProcessFinancialPostingDto → Journal → PolicyEvaluationResult
unfolding is_balanced
posting_policy number_text now dto j = evaluate_financial_posting_policy number_text now (record {
  amount = total_debit j;
  is_balanced = is_balanced j;
  auto_approval_threshold = or_else dto.auto_approval_threshold default_posting_threshold;
})

-- The branches on the decision: the status of the journal afterwards.
unfoldable pub post_on : String → String → Journal → PolicyDecision → Posting JournalStatus
post_on now event_id j auto_approve = do
  posted ← in_accounting (post_journal now j.id)
  in_outbox (publish now event_id "Journal" j.id "JournalPosted")
  pure posted.status
post_on now event_id j require_human_approval = do
  in_outbox (publish now event_id "Journal" j.id "FinancialPostingEscalated")
  pure j.status
post_on now event_id j reject = pure j.status

abbrev pub posting_key : ProcessFinancialPostingDto → String → String
posting_key dto header = or_text header dto.idempotency_key

-- The response under the key, if there is a key.
abbrev pub cached_posting : String → PostingState → Option FinancialPostingResult
cached_posting key s = if is_empty key then none else lookup key s.idempotency_store

abbrev pub remember_posting : String → FinancialPostingResult → PostingState → PostingState
remember_posting key response s =
    if is_empty key
    then s
    else record s { idempotency_store = insert key response s.idempotency_store }

module _ (number_text iso : ℤ → String) (clock : ℤ) (workflow_id task_id event_id : String)
    (dto : ProcessFinancialPostingDto) (key : String) where
  abbrev pub posting_response :
      Journal → PolicyEvaluationResult → JournalStatus → FinancialPostingResult
  posting_response j policy status = record {
    workflow_id = workflow_id;
    journal_id = j.id;
    task_id = task_id;
    policy = policy;
    journal_status = status;
    idempotency_key = key;
    timestamp = iso clock;
  }

  -- The response for a task that is given up.
  unfoldable pub give_up : Journal → Posting FinancialPostingResult
  give_up j = do
    let policy : PolicyEvaluationResult = record {
      decision = reject;
      reasons = "Re-evaluation circuit breaker triggered before policy check" ∷ [];
      evaluated_at = iso clock;
    }
    let response = posting_response j policy j.status
    modify (remember_posting key response)
    pure response

  -- The rest once the decision is acted on.
  unfoldable pub finish_posting :
      Journal → PolicyEvaluationResult → JournalStatus → Posting FinancialPostingResult
  finish_posting j policy status = do
    in_work (complete_task iso clock task_id "")
    let response = posting_response j policy status
    modify (remember_posting key response)
    pure response

  -- The rest from the evaluation of the policy on.
  unfoldable pub post_by_policy : Journal → Posting FinancialPostingResult
  unfolding posting_policy post_on finish_posting
  post_by_policy j = do
    let policy = posting_policy number_text (iso clock) dto j
    in_work (log workflow_id "WORKFLOW_FINANCIAL_POSTING_POLICY_EVALUATED" AuditStatus.success "")
    status ← post_on (iso clock) event_id j policy.decision
    finish_posting j policy status

  -- `processFinancialPosting` once no response is stored under the key.
  unfoldable pub post_new : Posting FinancialPostingResult
  unfolding give_up post_by_policy
  post_new = do
    throw_if (is_empty dto.journal_id) (bad_request "journalId is required")
    in_work (log workflow_id "WORKFLOW_FINANCIAL_POSTING_STARTED" AuditStatus.success "")
    j ← in_accounting (get_journal dto.journal_id)
    throw_if (is_posted j.status) (bad_request "Journal is already posted")
    task ← in_work (create_task iso clock task_id (posting_task workflow_id dto key))
    (if is_given_up task.status then give_up j else post_by_policy j)

unfoldable pub process_financial_posting :
    (ℤ → String)
    → (ℤ → String)
    → ℤ
    → String
    → String
    → String
    → ProcessFinancialPostingDto
    → String
    → Posting FinancialPostingResult
unfolding post_new
process_financial_posting number_text iso clock workflow_id task_id event_id dto header = do
  let key = posting_key dto header
  existing ← gets (cached_posting key)
  or_existing existing (post_new number_text iso clock workflow_id task_id event_id dto key)
