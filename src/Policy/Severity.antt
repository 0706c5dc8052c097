-- ===== src/Policy/Severity.antt =====
-- How strict the decisions of the policy engine are.
use autonomous_enterprise.Shared.{arith, String, ℕ, ◌≤◌}
use autonomous_enterprise.Shared.Int.{ℤ, ◌≤ℤ◌}
use autonomous_enterprise.Policy.{
  PolicyContext, FinancialPostingPolicyContext, InfrastructureScalingPolicyContext, PolicyDecision,
  auto_approve, require_human_approval, reject, evaluate_financial_posting_policy,
  evaluate_procurement_policy, evaluate_infrastructure_scaling_policy,
}

abbrev pub severity : PolicyDecision → ℕ
severity auto_approve = 0
severity require_human_approval = 1
severity reject = 2

procurement_monotone :
    (number_text : ℤ → String) (now : String) (p : PolicyContext) (amount : ℤ)
    → amount ≤ℤ p.amount
    → severity (evaluate_procurement_policy number_text now (record p { amount = amount })).decision
      ≤ severity (evaluate_procurement_policy number_text now p).decision
unfolding evaluate_procurement_policy
procurement_monotone number_text now p amount less = ground arith

posting_monotone :
    (number_text : ℤ → String) (now : String) (f : FinancialPostingPolicyContext) (amount : ℤ)
    → amount ≤ℤ f.amount
    → severity
        (evaluate_financial_posting_policy number_text now (record f { amount = amount })).decision
      ≤ severity (evaluate_financial_posting_policy number_text now f).decision
unfolding evaluate_financial_posting_policy
posting_monotone number_text now f amount less = ground arith

replicas_monotone :
    (number_text : ℤ → String) (now : String) (s : InfrastructureScalingPolicyContext)
    (replicas : ℤ)
    → replicas ≤ℤ s.requested_replicas
    → severity
        (evaluate_infrastructure_scaling_policy number_text now
          (record s { requested_replicas = replicas })).decision
      ≤ severity (evaluate_infrastructure_scaling_policy number_text now s).decision
unfolding evaluate_infrastructure_scaling_policy
replicas_monotone number_text now s replicas fewer = ground arith

confidence_monotone :
    (number_text : ℤ → String) (now : String) (s : InfrastructureScalingPolicyContext)
    (confidence : ℤ)
    → s.confidence ≤ℤ confidence
    → severity
        (evaluate_infrastructure_scaling_policy number_text now
          (record s { confidence = confidence })).decision
      ≤ severity (evaluate_infrastructure_scaling_policy number_text now s).decision
unfolding evaluate_infrastructure_scaling_policy
confidence_monotone number_text now s confidence surer = ground arith

through : (a b c : ℕ) → a ≤ b → b ≤ c → a ≤ c
through a b c h k = omega arith

scaling_monotone :
    (number_text : ℤ → String) (now : String) (s : InfrastructureScalingPolicyContext)
    (confidence replicas : ℤ)
    → s.confidence ≤ℤ confidence
    → replicas ≤ℤ s.requested_replicas
    → severity
        (evaluate_infrastructure_scaling_policy number_text now
          (record s { confidence = confidence; requested_replicas = replicas })).decision
      ≤ severity (evaluate_infrastructure_scaling_policy number_text now s).decision
scaling_monotone number_text now s confidence replicas surer fewer =
    through _ _ _
      (replicas_monotone number_text now (record s { confidence = confidence }) replicas fewer)
      (confidence_monotone number_text now s confidence surer)

-- The three policies are monotone, from AUTO_APPROVE over REQUIRE_HUMAN_APPROVAL to REJECT: a
-- smaller amount, a higher confidence or fewer replicas, with all else the same, never make the
-- decision more severe.
pub policies_monotone :
    (number_text : ℤ → String) (now : String) (p : PolicyContext)
    (f : FinancialPostingPolicyContext) (s : InfrastructureScalingPolicyContext)
    (amount posted confidence replicas : ℤ)
    → amount ≤ℤ p.amount
    → posted ≤ℤ f.amount
    → s.confidence ≤ℤ confidence
    → replicas ≤ℤ s.requested_replicas
    → (severity
          (evaluate_procurement_policy number_text now (record p { amount = amount })).decision
        ≤ severity (evaluate_procurement_policy number_text now p).decision)
      × (severity
            (evaluate_financial_posting_policy number_text now
              (record f { amount = posted })).decision
          ≤ severity (evaluate_financial_posting_policy number_text now f).decision)
      × (severity
            (evaluate_infrastructure_scaling_policy number_text now
              (record s { confidence = confidence; requested_replicas = replicas })).decision
          ≤ severity (evaluate_infrastructure_scaling_policy number_text now s).decision)
policies_monotone number_text now p f s amount posted confidence replicas less smaller surer fewer =
    (
      procurement_monotone number_text now p amount less,
      posting_monotone number_text now f posted smaller,
      scaling_monotone number_text now s confidence replicas surer fewer,
    )
