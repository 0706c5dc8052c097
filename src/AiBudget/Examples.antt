-- ===== src/AiBudget/Examples.antt =====
-- Runs of the AI budget service of one tenant.
use autonomous_enterprise.Shared.{
  arith, ◌≡◌, refl, String, true, false, some, none, [], ◌∷◌, List, after, result, ok, err, Result,
}
use autonomous_enterprise.Shared.Int.{ℤ, pos, ◌+ℤ◌, ◌-ℤ◌, ◌*ℤ◌}
use autonomous_enterprise.Shared.Lists.{total}
use autonomous_enterprise.Shared.Sort.{IsDescending}
use autonomous_enterprise.AiBudget.Types.{
  TenantAiBudget, RecordUsageInput, ReserveResult, AiBudgetRepository, Moment,
}
use autonomous_enterprise.AiBudget.Budgets.{default_budget, set_budget, find_budget, used_since}
use autonomous_enterprise.AiBudget.Reservations.{
  reserve_and_record_usage, usage_record, has_no_reason,
}
use autonomous_enterprise.AiBudget.Breakdown.{AgentUsage, get_agent_usage_breakdown}
use autonomous_enterprise.AiBudget.Limits.{
  IsWithin, reserve_and_record_usage-IsWithin, reserve_and_record_usage_refused,
}
use autonomous_enterprise.AiBudget.Conserving.{get_agent_usage_breakdown_conserves}

abbrev time_of : String → ℤ
time_of text = pos 7

abbrev number_text : ℤ → String
number_text n = ""

abbrev average : ℤ → ℤ → ℤ
average a b = a

abbrev noon : Moment
noon = record { now = "t"; id = "m"; start_of_day = pos 5; start_of_month = pos 1 }

abbrev budget : TenantAiBudget
budget = default_budget (pos 100) "acme" noon

abbrev fresh : AiBudgetRepository
fresh = record { usage_records = []; budgets = budget ∷ [] }

abbrev small_call : RecordUsageInput
small_call = record {
  workflow_id = "";
  agent_name = "planner";
  model = "small";
  input_tokens = pos 10;
  output_tokens = pos 5;
  estimated_cost_usd = pos 60;
  actual_cost_usd = none;
  latency_ms = pos 3;
  reevaluation_count = none;
}

abbrev large_call : RecordUsageInput
large_call = record small_call { estimated_cost_usd = pos 600 }

abbrev used : AiBudgetRepository
used = after (
    reserve_and_record_usage time_of number_text number_text (pos 100) "acme" noon false small_call
      fresh)

abbrev accepted : ReserveResult
accepted = record {
  allowed = true;
  reasons = [];
  created = some (usage_record time_of number_text number_text (pos 100) "acme" noon small_call);
}

fresh-budget : find_budget "acme" fresh ≡ some budget
unfolding default_budget autonomous_enterprise.Shared.Lists.find_first
fresh-budget = refl

small_call_runs :
    result (
      reserve_and_record_usage time_of number_text number_text
        (pos 100)
        "acme"
        noon
        false
        small_call
        fresh)
    ≡ ok accepted
unfolding default_budget reserve_and_record_usage
    autonomous_enterprise.AiBudget.Budgets.get_or_create_budget
    autonomous_enterprise.Shared.Lists.find_first autonomous_enterprise.AiBudget.Budgets.get_status
    ◌*ℤ◌ ◌-ℤ◌ ◌+ℤ◌
small_call_runs = refl

reserve_and_record_usage-IsWithin_example : IsWithin time_of "acme" noon budget small_call used
reserve_and_record_usage-IsWithin_example =
    reserve_and_record_usage-IsWithin time_of number_text number_text (pos 100) "acme" noon false
      small_call fresh budget accepted fresh-budget refl (omega arith) small_call_runs refl

abbrev refused : Result ReserveResult → ReserveResult
refused (ok o) = o
refused (err e) = accepted

abbrev large_call_answer : ReserveResult
large_call_answer = refused (
    result (
      reserve_and_record_usage time_of number_text number_text (pos 100) "acme" noon false
        large_call fresh))

large_call_runs :
    result (
      reserve_and_record_usage time_of number_text number_text
        (pos 100)
        "acme"
        noon
        false
        large_call
        fresh)
    ≡ ok large_call_answer
unfolding default_budget reserve_and_record_usage
    autonomous_enterprise.AiBudget.Budgets.get_or_create_budget
    autonomous_enterprise.Shared.Lists.find_first autonomous_enterprise.AiBudget.Budgets.get_status
large_call_runs = refl

large_call_refused : large_call_answer.allowed ≡ false
unfolding default_budget reserve_and_record_usage
    autonomous_enterprise.AiBudget.Budgets.get_or_create_budget
    autonomous_enterprise.Shared.Lists.find_first autonomous_enterprise.AiBudget.Budgets.get_status
large_call_refused = refl

reserve_and_record_usage_refused_example :
    (after (
        reserve_and_record_usage time_of number_text number_text
          (pos 100)
          "acme"
          noon
          false
          large_call
          fresh)
      ≡ fresh)
    × (large_call_answer.created ≡ none)
    × (has_no_reason large_call_answer.reasons ≡ false)
reserve_and_record_usage_refused_example =
    reserve_and_record_usage_refused time_of number_text number_text (pos 100) "acme" noon false
      large_call fresh budget large_call_answer fresh-budget large_call_runs large_call_refused

abbrev planner_usage : AgentUsage
planner_usage = record {
  agent_name = "planner";
  model = "small";
  daily_spent = pos 60;
  daily_limit = pos 500;
  tokens = pos 15;
  calls = pos 1;
  avg_latency_ms = pos 3;
}

breakdown_runs :
    result (get_agent_usage_breakdown time_of average (pos 100) "acme" noon used)
    ≡ ok (planner_usage ∷ [])
unfolding default_budget get_agent_usage_breakdown
    autonomous_enterprise.AiBudget.Budgets.get_or_create_budget
    autonomous_enterprise.Shared.Lists.find_first reserve_and_record_usage
    autonomous_enterprise.AiBudget.Budgets.get_status ◌*ℤ◌ ◌-ℤ◌ ◌+ℤ◌
    autonomous_enterprise.Shared.Sort.sort_down autonomous_enterprise.Shared.insert
    autonomous_enterprise.Shared.lookup
breakdown_runs = refl

get_agent_usage_breakdown_conserves_example :
    (total (λ a. a.daily_spent) (planner_usage ∷ []) ≡ used_since time_of "acme" (pos 5) "" used)
    × IsDescending (λ (a : AgentUsage). a.daily_spent) (planner_usage ∷ [])
get_agent_usage_breakdown_conserves_example =
    get_agent_usage_breakdown_conserves time_of average (pos 100) "acme" noon used
      (planner_usage ∷ []) breakdown_runs
