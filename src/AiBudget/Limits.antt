-- ===== src/AiBudget/Limits.antt =====
-- What a reservation that is allowed leaves of the budgets.
use autonomous_enterprise.Shared.{
  arith, ◌≡◌, List, [], ◌∷◌, ◌++◌, filter_by, String, Bool, ◌||◌, true, false, is_empty,
  if◌then◌else◌, some, none, result, ok, after,
}
use autonomous_enterprise.Shared.Int.{
  ℤ, pos, ◌+ℤ◌, ◌≤ℤ◌, ltb_ℤ, leb_ℤ, ◌-ℤ◌, max_ℤ, +ℤ_parts, -ℤ_parts, parts_apart, int_laws,
}
use autonomous_enterprise.Shared.Lists.{total}
use autonomous_enterprise.AiBudget.Types.{
  AiUsageRecord, TenantAiBudget, AiBudgetStatus, RecordUsageInput, ReserveResult,
  AiBudgetRepository, Moment,
}
use autonomous_enterprise.AiBudget.Budgets.{
  cost_of, is_usage_since, find_usage_since, find_budget, used_since, status_of,
  get_or_create_budget, get_status, create_usage_record,
}
use autonomous_enterprise.AiBudget.Reservations.{
  is_over_transaction, is_over_day, is_over_month, is_over_agent, reasons_against, has_no_reason,
  evaluate_budget_availability, usage_record, reserve, reserve_and_record_usage,
}

total-snoc :
    (f : AiUsageRecord → ℤ) (p : AiUsageRecord → Bool) (us : List AiUsageRecord) (u : AiUsageRecord)
    → total f (filter_by p (us ++ u ∷ []))
      ≡ total f (filter_by p us) +ℤ (if p u then f u else pos 0)
total-snoc f p [] u = grind int_laws
total-snoc f p (x ∷ us) u = grind (int_laws, total-snoc f p us u)

-- The tests that pass when no reason stands against a cost.
reasons_against-none :
    (fixed number_text : ℤ → String) (b : TenantAiBudget) (status : AiBudgetStatus)
    (agent_used cost : ℤ) (agent_name : String)
    → has_no_reason (reasons_against fixed number_text b status agent_used cost agent_name) ≡ true
    → (is_over_transaction b cost ≡ false)
      × (is_over_day status cost ≡ false)
      × (is_over_month status cost ≡ false)
      × (is_over_agent b agent_used cost agent_name ≡ false)
unfolding reasons_against
reasons_against-none fixed number_text b status agent_used cost agent_name h = ground arith

fits :
    (budget used cost : ℤ)
    → (leb_ℤ budget used || ltb_ℤ (max_ℤ (pos 0) (budget -ℤ used)) cost) ≡ false
    → (used +ℤ cost ≤ℤ budget) × (used ≤ℤ budget)
fits budget used cost h =
    ground (arith, -ℤ_parts budget used, +ℤ_parts used cost, parts_apart (budget -ℤ used))

-- A record takes its cost of a sum that counts it, and nothing of another.
used_since-create :
    (time_of : String → ℤ) (tenant_id : String) (since : ℤ) (agent_name : String)
    (u : AiUsageRecord) (r : AiBudgetRepository) (budget : ℤ)
    → used_since time_of tenant_id since agent_name r +ℤ cost_of u ≤ℤ budget
    → used_since time_of tenant_id since agent_name r ≤ℤ budget
    → used_since time_of tenant_id since agent_name (after (create_usage_record u r)) ≤ℤ budget
unfolding used_since find_usage_since create_usage_record
used_since-create time_of tenant_id since agent_name u r budget h k = grind (
  int_laws,
  total-snoc cost_of (is_usage_since time_of tenant_id since agent_name) r.usage_records u,
)

module _ (time_of : String → ℤ) (fixed number_text : ℤ → String) (unit : ℤ) (tenant_id : String)
    (m : Moment) where
  -- A reservation on a stored budget, by the check that it makes.
  reserve_cases :
      (is_locked : Bool) (input : RecordUsageInput) (r : AiBudgetRepository) (b : TenantAiBudget)
      (o : ReserveResult)
      → find_budget tenant_id r ≡ some b
      → result
          (reserve_and_record_usage time_of fixed number_text unit tenant_id m is_locked input r)
        ≡ ok o
      → o.allowed ≡ true
      → (has_no_reason (
            reasons_against fixed number_text b
              (status_of tenant_id b
                (used_since time_of tenant_id m.start_of_day "" r)
                (used_since time_of tenant_id m.start_of_month "" r))
              (used_since time_of tenant_id m.start_of_day input.agent_name r)
              input.estimated_cost_usd
              input.agent_name)
          ≡ true)
        × (after (
              reserve_and_record_usage time_of fixed number_text unit tenant_id m is_locked input r)
            ≡ after (
                create_usage_record
                  (usage_record time_of fixed number_text unit tenant_id m input)
                  r))
  unfolding reserve_and_record_usage evaluate_budget_availability get_or_create_budget get_status
      reserve
  reserve_cases is_locked input r b o stored done allowed = ground arith

agent_bound :
    (b : TenantAiBudget) (agent_used cost : ℤ) (agent_name : String)
    → is_empty agent_name ≡ false
    → is_over_agent b agent_used cost agent_name ≡ false
    → agent_used +ℤ cost ≤ℤ b.per_agent_daily_budget_usd
agent_bound b agent_used cost agent_name named within = ground arith

less : (a cost k : ℤ) → pos 0 ≤ℤ cost → a +ℤ cost ≤ℤ k → a ≤ℤ k
less a cost k natural h = omega (arith, +ℤ_parts a cost)

-- The bounds of the budget `b` after a reservation.
pub record IsWithin (time_of : String → ℤ) (tenant_id : String) (m : Moment) (b : TenantAiBudget)
    (input : RecordUsageInput) (t : AiBudgetRepository) : Type 0 where
  pub transaction : input.estimated_cost_usd ≤ℤ b.per_transaction_budget_usd
  pub daily : used_since time_of tenant_id m.start_of_day "" t ≤ℤ b.daily_budget_usd
  pub monthly : used_since time_of tenant_id m.start_of_month "" t ≤ℤ b.monthly_budget_usd
  pub agent :
      is_empty input.agent_name ≡ false
      → used_since time_of tenant_id m.start_of_day input.agent_name t
        ≤ℤ b.per_agent_daily_budget_usd

module _ (time_of : String → ℤ) (fixed number_text : ℤ → String) (unit : ℤ) (tenant_id : String)
    (m : Moment) where
  -- When a reservation of a cost that is not negative, with no actual cost given, is allowed for
  -- a tenant with a stored budget, then the cost is at most the budget of a transaction, and with
  -- it the recorded usage of the day, of the month and, where an agent is named, of the agent's
  -- day are at most their budgets.
  pub reserve_and_record_usage-IsWithin :
      (is_locked : Bool) (input : RecordUsageInput) (r : AiBudgetRepository) (b : TenantAiBudget)
      (o : ReserveResult)
      → find_budget tenant_id r ≡ some b
      → input.actual_cost_usd ≡ none
      → pos 0 ≤ℤ input.estimated_cost_usd
      → result
          (reserve_and_record_usage time_of fixed number_text unit tenant_id m is_locked input r)
        ≡ ok o
      → o.allowed ≡ true
      → IsWithin time_of tenant_id m b input (
          after
            (reserve_and_record_usage time_of fixed number_text unit tenant_id m is_locked input r))
  unfolding usage_record status_of
  reserve_and_record_usage-IsWithin is_locked input r b o stored unpaid natural done allowed =
      let u = usage_record time_of fixed number_text unit tenant_id m input in
      let cost = input.estimated_cost_usd in
      let day = used_since time_of tenant_id m.start_of_day "" r in
      let month = used_since time_of tenant_id m.start_of_month "" r in
      let agent_used = used_since time_of tenant_id m.start_of_day input.agent_name r in
      let status = status_of tenant_id b day month in
      let (none_against, written) =
        reserve_cases time_of fixed number_text unit tenant_id m is_locked input r b o stored done
          allowed in
      let (one, day_fits, month_fits, agent_fits) =
        reasons_against-none fixed number_text b status agent_used cost input.agent_name
          none_against in
      let (d, d') = fits b.daily_budget_usd day cost day_fits in
      let (n, n') = fits b.monthly_budget_usd month cost month_fits in
      rw written record {
        transaction = ground (arith, one);
        daily =
            used_since-create time_of tenant_id m.start_of_day "" u r b.daily_budget_usd
              (rw unpaid d) d';
        monthly =
            used_since-create time_of tenant_id m.start_of_month "" u r b.monthly_budget_usd
              (rw unpaid n) n';
        agent = λ named.
            used_since-create time_of tenant_id m.start_of_day input.agent_name u r
              b.per_agent_daily_budget_usd
              (rw unpaid (agent_bound b agent_used cost input.agent_name named agent_fits))
              (less agent_used cost b.per_agent_daily_budget_usd natural
                (agent_bound b agent_used cost input.agent_name named agent_fits));
      }

  -- When a reservation is refused for a tenant with a stored budget, nothing is recorded or
  -- changed, and the answer has at least one reason.
  pub reserve_and_record_usage_refused :
      (is_locked : Bool) (input : RecordUsageInput) (r : AiBudgetRepository) (b : TenantAiBudget)
      (o : ReserveResult)
      → find_budget tenant_id r ≡ some b
      → result
          (reserve_and_record_usage time_of fixed number_text unit tenant_id m is_locked input r)
        ≡ ok o
      → o.allowed ≡ false
      → (after
            (reserve_and_record_usage time_of fixed number_text unit tenant_id m is_locked input r)
          ≡ r)
        × (o.created ≡ none)
        × (has_no_reason o.reasons ≡ false)
  unfolding reserve_and_record_usage evaluate_budget_availability get_or_create_budget get_status
      reserve
  reserve_and_record_usage_refused is_locked input r b o stored done refused = ground arith
