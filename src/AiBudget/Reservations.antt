-- ===== src/AiBudget/Reservations.antt =====
-- apps/api/src/modules/ai-budget/ai-budget.service.ts: the methods of the class AiBudgetService that
-- check a cost against the budgets and record it.
use autonomous_enterprise.Shared.{
  bad_request, pure, gets, throw_if, ◌>>=◌, ◌>>◌, is_empty, or_else, String, ◌<>◌, Bool, true,
  false, not, ◌&&◌, ◌||◌, if◌then◌else◌, none, some, List, [], ◌∷◌, ◌++◌,
}
use autonomous_enterprise.Shared.Int.{ℤ, pos, ◌+ℤ◌, ltb_ℤ}
use autonomous_enterprise.AiBudget.Types.{
  AiUsageRecord, TenantAiBudget, AiBudgetStatus, RecordUsageInput, BudgetCheckResult, ReserveResult,
  Moment,
}
use autonomous_enterprise.AiBudget.Budgets.{
  Ai, create_usage_record, get_or_create_budget, get_status, used_since,
}

-- The tests of `evaluateBudgetAvailability`; `agent_used` is what the agent has used today.
abbrev pub is_over_transaction : TenantAiBudget → ℤ → Bool
is_over_transaction b cost = ltb_ℤ b.per_transaction_budget_usd cost

abbrev pub is_over_day : AiBudgetStatus → ℤ → Bool
is_over_day status cost = status.is_daily_exceeded || ltb_ℤ status.daily_remaining_usd cost

abbrev pub is_over_month : AiBudgetStatus → ℤ → Bool
is_over_month status cost = status.is_monthly_exceeded || ltb_ℤ status.monthly_remaining_usd cost

abbrev pub is_over_agent : TenantAiBudget → ℤ → ℤ → String → Bool
is_over_agent b agent_used cost agent_name =
    not (is_empty agent_name) && ltb_ℤ b.per_agent_daily_budget_usd (agent_used +ℤ cost)

abbrev reason_if : Bool → String → List String
reason_if c reason = if c then reason ∷ [] else []

unfoldable pub reasons_against :
    (ℤ → String) → (ℤ → String) → TenantAiBudget → AiBudgetStatus → ℤ → ℤ → String → List String
reasons_against fixed number_text b status agent_used cost agent_name =
    reason_if (is_over_transaction b cost) (
      "Estimated cost [$"
      <> fixed cost
      <> "] exceeds per-transaction budget [$"
      <> number_text b.per_transaction_budget_usd
      <> "]")
    ++ reason_if (is_over_day status cost) (
        "Daily AI budget exceeded or insufficient: remaining [$"
        <> fixed status.daily_remaining_usd
        <> "], requested [$"
        <> fixed cost
        <> "]")
    ++ reason_if (is_over_month status cost) (
        "Monthly AI budget exceeded or insufficient: remaining [$"
        <> fixed status.monthly_remaining_usd
        <> "], requested [$"
        <> fixed cost
        <> "]")
    ++ reason_if (is_over_agent b agent_used cost agent_name) (
        "Agent ["
        <> agent_name
        <> "] daily budget exceeded: used [$"
        <> fixed agent_used
        <> "], per-agent limit [$"
        <> number_text b.per_agent_daily_budget_usd
        <> "]")

abbrev pub has_no_reason : List String → Bool
has_no_reason [] = true
has_no_reason (x ∷ xs) = false

module _ (time_of : String → ℤ) (fixed number_text : ℤ → String) (unit : ℤ) (tenant_id : String)
    (m : Moment) where
  unfoldable pub evaluate_budget_availability : ℤ → String → Ai BudgetCheckResult
  unfolding reasons_against
  evaluate_budget_availability cost agent_name = do
    budget ← get_or_create_budget unit tenant_id m
    status ← get_status time_of unit tenant_id m
    agent_used ← gets (used_since time_of tenant_id m.start_of_day agent_name)
    let reasons = reasons_against fixed number_text budget status agent_used cost agent_name
    pure (record { allowed = has_no_reason reasons; status = status; reasons = reasons })

  unfoldable pub check_budget_availability : ℤ → String → Ai BudgetCheckResult
  unfolding evaluate_budget_availability
  check_budget_availability cost agent_name = evaluate_budget_availability cost agent_name

  unfoldable pub usage_record : RecordUsageInput → AiUsageRecord
  usage_record input = record {
    id = m.id;
    tenant_id = tenant_id;
    workflow_id = input.workflow_id;
    agent_name = input.agent_name;
    model = input.model;
    input_tokens = input.input_tokens;
    output_tokens = input.output_tokens;
    total_tokens = input.input_tokens +ℤ input.output_tokens;
    estimated_cost_usd = input.estimated_cost_usd;
    actual_cost_usd = input.actual_cost_usd;
    latency_ms = input.latency_ms;
    reevaluation_count = or_else input.reevaluation_count (pos 0);
    created_at = m.now;
  }

  abbrev check_tokens : RecordUsageInput → Ai Unit
  check_tokens input =
      throw_if (ltb_ℤ input.input_tokens (pos 0) || ltb_ℤ input.output_tokens (pos 0))
        (bad_request "Token counts cannot be negative")

  unfoldable pub record_usage : RecordUsageInput → Ai AiUsageRecord
  unfolding usage_record create_usage_record
  record_usage input = do check_tokens input; create_usage_record (usage_record input)

  -- The rest of `reserveAndRecordUsage` after the check.
  unfoldable pub reserve : RecordUsageInput → BudgetCheckResult → Ai ReserveResult
  unfolding usage_record create_usage_record
  reserve input check =
      if not check.allowed
      then pure (record { allowed = false; reasons = check.reasons; created = none })
      else (do
        saved ← create_usage_record (usage_record input)
        pure (record { allowed = true; reasons = []; created = some saved }))

  -- `withTenantBudgetLock` around the check and the record; `is_locked` says that Redis is enabled
  -- and gives no token for the tenant's lock.
  abbrev pub with_tenant_budget_lock : {A : Type 0} → Bool → Ai A → Ai A
  with_tenant_budget_lock is_locked m = do
    throw_if is_locked (bad_request "AI budget is being updated concurrently, please retry")
    m

  unfoldable pub reserve_and_record_usage : Bool → RecordUsageInput → Ai ReserveResult
  unfolding evaluate_budget_availability reserve
  reserve_and_record_usage is_locked input = do
    check_tokens input
    with_tenant_budget_lock is_locked (do
      check ← evaluate_budget_availability input.estimated_cost_usd input.agent_name
      reserve input check)
