-- ===== src/Policy/Examples.antt =====
-- Runs of the policy engine on a smaller request.
use autonomous_enterprise.Shared.{arith, String, true, ◌≤◌}
use autonomous_enterprise.Shared.Int.{ℤ, pos}
use autonomous_enterprise.Policy.{
  PolicyContext, FinancialPostingPolicyContext, InfrastructureScalingPolicyContext,
  evaluate_financial_posting_policy, evaluate_procurement_policy,
  evaluate_infrastructure_scaling_policy,
}
use autonomous_enterprise.Policy.Severity.{severity, policies_monotone}

abbrev number_text : ℤ → String
number_text n = ""

abbrev purchase : PolicyContext
purchase = record {
  amount = pos 70;
  supplier_verified = true;
  budget_available = true;
  auto_approval_threshold = pos 50;
}

abbrev posting : FinancialPostingPolicyContext
posting = record { amount = pos 70; is_balanced = true; auto_approval_threshold = pos 50 }

abbrev scaling : InfrastructureScalingPolicyContext
scaling = record {
  is_scale_up = true;
  projected_cost_usd = pos 9;
  budget_available = true;
  confidence = pos 700;
  min_confidence_threshold = pos 800;
  max_replicas = pos 4;
  requested_replicas = pos 5;
}

policies_monotone_example :
    (severity
        (evaluate_procurement_policy number_text "t" (record purchase { amount = pos 40 })).decision
      ≤ severity (evaluate_procurement_policy number_text "t" purchase).decision)
    × (severity
          (evaluate_financial_posting_policy number_text "t"
            (record posting { amount = pos 50 })).decision
        ≤ severity (evaluate_financial_posting_policy number_text "t" posting).decision)
    × (severity
          (evaluate_infrastructure_scaling_policy number_text "t"
            (record scaling { confidence = pos 900; requested_replicas = pos 3 })).decision
        ≤ severity (evaluate_infrastructure_scaling_policy number_text "t" scaling).decision)
policies_monotone_example =
    policies_monotone number_text "t" purchase posting scaling (pos 40) (pos 50) (pos 900) (pos 3)
      (omega arith) (omega arith) (omega arith) (omega arith)
