-- ===== src/AiBudget/Conserving.antt =====
-- The breakdown by agents against the usage of the day.
use autonomous_enterprise.Shared.{
  arith, ◌≡◌, List, [], ◌∷◌, Store, lookup, insert, or_else, or_text, String, result, ok,
  Option-cases, inl, inr,
}
use autonomous_enterprise.Shared.Int.{ℤ, pos, ◌+ℤ◌, int_laws}
use autonomous_enterprise.Shared.Lists.{total}
use autonomous_enterprise.Shared.Sort.{place, sort_down, IsDescending, sort_down-IsDescending}
use autonomous_enterprise.AiBudget.Types.{AiUsageRecord, TenantAiBudget, AiBudgetRepository, Moment}
use autonomous_enterprise.AiBudget.Budgets.{
  cost_of, find_usage_since, find_budget, used_since, get_or_create_budget, upsert_budget,
  default_budget,
}
use autonomous_enterprise.AiBudget.Breakdown.{
  AgentGroup, AgentUsage, empty_group, grown, group_usage, agent_usage, entries,
  get_agent_usage_breakdown,
}

abbrev spent : AgentUsage → ℤ
spent a = a.daily_spent

abbrev group_total : Store AgentGroup → ℤ
group_total [] = pos 0
group_total ((k, g) ∷ groups) = g.daily_spent +ℤ group_total groups

group_total-insert :
    (key : String) (u : AiUsageRecord) (groups : Store AgentGroup)
    → group_total (insert key (grown u (or_else (lookup key groups) (empty_group u))) groups)
      ≡ group_total groups +ℤ cost_of u
unfolding lookup insert grown empty_group
group_total-insert key u [] = grind int_laws
group_total-insert key u ((k, g) ∷ groups) = grind (int_laws, group_total-insert key u groups)

group_usage-total :
    (us : List AiUsageRecord) (groups : Store AgentGroup)
    → group_total (group_usage us groups) ≡ group_total groups +ℤ total cost_of us
unfolding group_usage
group_usage-total [] groups = grind int_laws
group_usage-total (u ∷ us) groups =
    let key = or_text u.agent_name "unknown-agent" in
    grind (
      int_laws,
      group_total-insert key u groups,
      group_usage-total us
          (insert key (grown u (or_else (lookup key groups) (empty_group u))) groups),
    )

entries-total :
    (average : ℤ → ℤ → ℤ) (b : TenantAiBudget) (groups : Store AgentGroup)
    → total spent (entries average b groups) ≡ group_total groups
unfolding entries agent_usage
entries-total average b [] = grind int_laws
entries-total average b ((k, g) ∷ groups) = grind (int_laws, entries-total average b groups)

place-total :
    (a : AgentUsage) (as' : List AgentUsage)
    → total spent (place spent a as') ≡ spent a +ℤ total spent as'
unfolding place
place-total a [] = grind int_laws
place-total a (x ∷ xs) = grind (int_laws, place-total a xs)

sort_down-total : (xs : List AgentUsage) → total spent (sort_down spent xs) ≡ total spent xs
unfolding sort_down
sort_down-total [] = grind int_laws
sort_down-total (x ∷ xs) = grind (int_laws, place-total x (sort_down spent xs), sort_down-total xs)

-- What the breakdown of the records `us` returns, for the budget `b`.
breakdown_lem :
    (average : ℤ → ℤ → ℤ) (b : TenantAiBudget) (us : List AiUsageRecord) (agents : List AgentUsage)
    → agents ≡ sort_down spent (entries average b (group_usage us []))
    → (total spent agents ≡ total cost_of us) × IsDescending spent agents
breakdown_lem average b us agents e = (
  grind (
    int_laws,
    sort_down-total (entries average b (group_usage us [])),
    entries-total average b (group_usage us []),
    group_usage-total us [],
  ),
  rw e (sort_down-IsDescending spent (entries average b (group_usage us []))),
)

-- The breakdown of the day's usage by agent adds up to the usage of the day that the budget check
-- counts, and lists the agents with the highest cost first.
pub get_agent_usage_breakdown_conserves :
    (time_of : String → ℤ) (average : ℤ → ℤ → ℤ) (unit : ℤ) (tenant_id : String) (m : Moment)
    (r : AiBudgetRepository) (agents : List AgentUsage)
    → result (get_agent_usage_breakdown time_of average unit tenant_id m r) ≡ ok agents
    → (total (λ a. a.daily_spent) agents ≡ used_since time_of tenant_id m.start_of_day "" r)
      × IsDescending (λ a. a.daily_spent) agents
unfolding get_agent_usage_breakdown get_or_create_budget upsert_budget used_since find_usage_since
get_agent_usage_breakdown_conserves time_of average unit tenant_id m r agents done =
    elim (Option-cases (find_budget tenant_id r)) [
      | inl none_yet ↦
          breakdown_lem average (default_budget unit tenant_id m)
            (find_usage_since time_of tenant_id m.start_of_day "" r) agents (ground arith)
      | inr (b, found) ↦
          breakdown_lem average b (find_usage_since time_of tenant_id m.start_of_day "" r) agents
            (ground arith)
    ]
