-- ===== src/AiBudget/Budgets.antt =====
-- apps/api/src/modules/ai-budget/ai-budget.service.ts: the methods of the class AiBudgetService, over
-- the arrays of apps/api/src/modules/ai-budget/infrastructure/in-memory-ai-budget.repository.ts.
-- `time_of` is `new Date(text).getTime()`, `fixed` prints a cost with four decimals and `number_text`
-- any number, `tenant_id` is the tenant of the request, `unit` one dollar in the units that a cost
-- counts. A call, with the lock of Redis that a reservation takes and gives back, is one step.
use autonomous_enterprise.Shared.{
  Action, pure, gets, modify, ◌>>=◌, ◌>>◌, is_empty, or_else, String, ◌==◌, Bool, ◌&&◌, ◌||◌,
  Option, none, some, List, [], ◌∷◌, ◌++◌, filter_by,
}
use autonomous_enterprise.Shared.Int.{ℤ, pos, ◌-ℤ◌, ◌*ℤ◌, max_ℤ, leb_ℤ}
use autonomous_enterprise.Shared.Lists.{find_first, replace_first, total}
use autonomous_enterprise.AiBudget.Types.{
  AiUsageRecord, TenantAiBudget, AiBudgetStatus, BudgetOverrides, AiBudgetRepository, Moment,
}

abbrev pub Ai : Type 0 → Type 0
Ai A = Action AiBudgetRepository A

unfoldable pub create_usage_record : AiUsageRecord → Ai AiUsageRecord
create_usage_record u = do
  modify (λ r. record r { usage_records = r.usage_records ++ u ∷ [] })
  pure u

abbrev pub is_usage_since : (String → ℤ) → String → ℤ → String → AiUsageRecord → Bool
is_usage_since time_of tenant_id since agent_name u =
    u.tenant_id == tenant_id
    && leb_ℤ since (time_of u.created_at)
    && (is_empty agent_name || u.agent_name == agent_name)

unfoldable pub find_usage_since :
    (String → ℤ) → String → ℤ → String → AiBudgetRepository → List AiUsageRecord
find_usage_since time_of tenant_id since agent_name r =
    filter_by (is_usage_since time_of tenant_id since agent_name) r.usage_records

abbrev pub is_budget_of : String → TenantAiBudget → Bool
is_budget_of tenant_id b = b.tenant_id == tenant_id

abbrev pub find_budget : String → AiBudgetRepository → Option TenantAiBudget
find_budget tenant_id r = find_first (is_budget_of tenant_id) r.budgets

-- The array with the budget in place of the first one of its tenant, or at the end.
abbrev pub upserted :
    TenantAiBudget → List TenantAiBudget → Option TenantAiBudget → List TenantAiBudget
upserted b budgets none = budgets ++ b ∷ []
upserted b budgets (some old) = replace_first (is_budget_of b.tenant_id) b budgets

unfoldable pub upsert_budget : TenantAiBudget → Ai TenantAiBudget
upsert_budget b = do
  modify (λ r. record r { budgets = upserted b r.budgets (find_budget b.tenant_id r) })
  pure b

unfoldable pub default_budget : ℤ → String → Moment → TenantAiBudget
default_budget unit tenant_id m = record {
  id = m.id;
  tenant_id = tenant_id;
  daily_budget_usd = pos 10 *ℤ unit;
  monthly_budget_usd = pos 100 *ℤ unit;
  per_transaction_budget_usd = unit;
  per_agent_daily_budget_usd = pos 5 *ℤ unit;
  created_at = m.now;
  updated_at = m.now;
}

-- `if (existing) { return existing; }`
abbrev existing_or_new : TenantAiBudget → Option TenantAiBudget → Ai TenantAiBudget
existing_or_new new none = upsert_budget new
existing_or_new new (some b) = pure b

unfoldable pub get_or_create_budget : ℤ → String → Moment → Ai TenantAiBudget
unfolding default_budget
get_or_create_budget unit tenant_id m = do
  existing ← gets (find_budget tenant_id)
  existing_or_new (default_budget unit tenant_id m) existing

unfoldable pub overridden : String → String → BudgetOverrides → TenantAiBudget → TenantAiBudget
overridden now tenant_id o b = record b {
  tenant_id = tenant_id;
  daily_budget_usd = or_else o.daily_budget_usd b.daily_budget_usd;
  monthly_budget_usd = or_else o.monthly_budget_usd b.monthly_budget_usd;
  per_transaction_budget_usd = or_else o.per_transaction_budget_usd b.per_transaction_budget_usd;
  per_agent_daily_budget_usd = or_else o.per_agent_daily_budget_usd b.per_agent_daily_budget_usd;
  updated_at = now;
}

unfoldable pub set_budget : ℤ → String → Moment → BudgetOverrides → Ai TenantAiBudget
unfolding get_or_create_budget overridden upsert_budget
set_budget unit tenant_id m overrides = do
  current ← get_or_create_budget unit tenant_id m
  upsert_budget (overridden m.now tenant_id overrides current)

-- `r.actualCostUsd ?? r.estimatedCostUsd`
abbrev pub cost_of : AiUsageRecord → ℤ
cost_of u = or_else u.actual_cost_usd u.estimated_cost_usd

-- The sum of the costs that are recorded since a time.
unfoldable pub used_since : (String → ℤ) → String → ℤ → String → AiBudgetRepository → ℤ
unfolding find_usage_since
used_since time_of tenant_id since agent_name r =
    total cost_of (find_usage_since time_of tenant_id since agent_name r)

unfoldable pub status_of : String → TenantAiBudget → ℤ → ℤ → AiBudgetStatus
status_of tenant_id b daily monthly = record {
  tenant_id = tenant_id;
  daily_used_usd = daily;
  daily_remaining_usd = max_ℤ (pos 0) (b.daily_budget_usd -ℤ daily);
  monthly_used_usd = monthly;
  monthly_remaining_usd = max_ℤ (pos 0) (b.monthly_budget_usd -ℤ monthly);
  is_daily_exceeded = leb_ℤ b.daily_budget_usd daily;
  is_monthly_exceeded = leb_ℤ b.monthly_budget_usd monthly;
}

unfoldable pub get_status : (String → ℤ) → ℤ → String → Moment → Ai AiBudgetStatus
unfolding get_or_create_budget used_since status_of
get_status time_of unit tenant_id m = do
  budget ← get_or_create_budget unit tenant_id m
  daily ← gets (used_since time_of tenant_id m.start_of_day "")
  monthly ← gets (used_since time_of tenant_id m.start_of_month "")
  pure (status_of tenant_id budget daily monthly)

unfoldable pub get_daily_token_usage : (String → ℤ) → String → Moment → AiBudgetRepository → ℤ
unfolding find_usage_since
get_daily_token_usage time_of tenant_id m r =
    total (λ u. u.total_tokens) (find_usage_since time_of tenant_id m.start_of_day "" r)
