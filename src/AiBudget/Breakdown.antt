-- ===== src/AiBudget/Breakdown.antt =====
-- apps/api/src/modules/ai-budget/ai-budget.service.ts: the method `getAgentUsageBreakdown` of the
-- class AiBudgetService. `average` is `Math.round(a / b)`.
use autonomous_enterprise.Shared.{
  pure, gets, ◌>>=◌, or_else, or_text, String, List, [], ◌∷◌, Store, lookup, insert, if◌then◌else◌,
}
use autonomous_enterprise.Shared.Int.{ℤ, pos, ◌+ℤ◌, ltb_ℤ}
use autonomous_enterprise.Shared.Sort.{sort_down}
use autonomous_enterprise.AiBudget.Types.{AiUsageRecord, TenantAiBudget, Moment}
use autonomous_enterprise.AiBudget.Budgets.{Ai, cost_of, find_usage_since, get_or_create_budget}

pub record AgentGroup : Type 0 where
  pub model : String
  pub daily_spent : ℤ
  pub tokens : ℤ
  pub calls : ℤ
  pub latency_sum : ℤ

pub record AgentUsage : Type 0 where
  pub agent_name : String
  pub model : String
  pub daily_spent : ℤ
  pub daily_limit : ℤ
  pub tokens : ℤ
  pub calls : ℤ
  pub avg_latency_ms : ℤ

unfoldable pub empty_group : AiUsageRecord → AgentGroup
empty_group u = record {
  model = or_text u.model "unknown";
  daily_spent = pos 0;
  tokens = pos 0;
  calls = pos 0;
  latency_sum = pos 0;
}

unfoldable pub grown : AiUsageRecord → AgentGroup → AgentGroup
grown u g = record {
  model = or_text u.model g.model;
  daily_spent = g.daily_spent +ℤ cost_of u;
  tokens = g.tokens +ℤ u.total_tokens;
  calls = g.calls +ℤ pos 1;
  latency_sum = g.latency_sum +ℤ u.latency_ms;
}

-- The loop over the records of the day.
unfoldable pub group_usage : List AiUsageRecord → Store AgentGroup → Store AgentGroup
unfolding empty_group grown
group_usage [] groups = groups
group_usage (u ∷ us) groups =
    let key = or_text u.agent_name "unknown-agent" in
    group_usage us (insert key (grown u (or_else (lookup key groups) (empty_group u))) groups)

unfoldable pub agent_usage : (ℤ → ℤ → ℤ) → TenantAiBudget → String → AgentGroup → AgentUsage
agent_usage average b name g = record {
  agent_name = name;
  model = g.model;
  daily_spent = g.daily_spent;
  daily_limit = b.per_agent_daily_budget_usd;
  tokens = g.tokens;
  calls = g.calls;
  avg_latency_ms = if ltb_ℤ (pos 0) g.calls then average g.latency_sum g.calls else pos 0;
}

unfoldable pub entries : (ℤ → ℤ → ℤ) → TenantAiBudget → Store AgentGroup → List AgentUsage
unfolding agent_usage
entries average b [] = []
entries average b ((name, g) ∷ groups) = agent_usage average b name g ∷ entries average b groups

unfoldable pub get_agent_usage_breakdown :
    (String → ℤ) → (ℤ → ℤ → ℤ) → ℤ → String → Moment → Ai (List AgentUsage)
unfolding group_usage entries
get_agent_usage_breakdown time_of average unit tenant_id m = do
  budget ← get_or_create_budget unit tenant_id m
  usage ← gets (find_usage_since time_of tenant_id m.start_of_day "")
  pure (sort_down (λ a. a.daily_spent) (entries average budget (group_usage usage [])))
