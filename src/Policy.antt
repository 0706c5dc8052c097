-- ===== src/Policy.antt =====
-- apps/api/src/common/policy: the service PolicyEngineService in policy-engine.service.ts and its
-- types in policy.types.ts. `now` is the clock's text, `number_text` prints a number.
pub mod Severity
mod Examples
use autonomous_enterprise.Shared.{String, ◌<>◌, Bool, true, false, not, ◌&&◌, List, [], ◌∷◌}
use autonomous_enterprise.Shared.{if◌then◌else◌}
use autonomous_enterprise.Shared.Int.{ℤ, ltb_ℤ}

pub record PolicyContext : Type 0 where
  pub amount : ℤ
  pub supplier_verified : Bool
  pub budget_available : Bool
  pub auto_approval_threshold : ℤ

pub record FinancialPostingPolicyContext : Type 0 where
  pub amount : ℤ
  pub is_balanced : Bool
  pub auto_approval_threshold : ℤ

pub record InfrastructureScalingPolicyContext : Type 0 where
  pub is_scale_up : Bool
  pub projected_cost_usd : ℤ
  pub budget_available : Bool
  pub confidence : ℤ
  pub min_confidence_threshold : ℤ
  pub max_replicas : ℤ
  pub requested_replicas : ℤ

pub data PolicyDecision : Type 0 where
  auto_approve require_human_approval reject : PolicyDecision

pub record PolicyEvaluationResult : Type 0 where
  pub decision : PolicyDecision
  pub reasons : List String
  pub evaluated_at : String

abbrev verdict : PolicyDecision → String → String → PolicyEvaluationResult
verdict decision reason now = record {
  decision = decision;
  reasons = reason ∷ [];
  evaluated_at = now;
}

unfoldable pub evaluate_financial_posting_policy :
    (ℤ → String) → String → FinancialPostingPolicyContext → PolicyEvaluationResult
evaluate_financial_posting_policy number_text now context =
    if not context.is_balanced
    then verdict reject "Journal entries are not balanced: total debit must equal total credit" now
    else if ltb_ℤ context.auto_approval_threshold context.amount
    then verdict require_human_approval
        ("Posting amount ["
          <> number_text context.amount
          <> "] exceeds auto-approval threshold ["
          <> number_text context.auto_approval_threshold
          <> "]")
        now
    else verdict auto_approve "Journal balanced and amount within auto-approval threshold" now

unfoldable pub evaluate_procurement_policy :
    (ℤ → String) → String → PolicyContext → PolicyEvaluationResult
evaluate_procurement_policy number_text now context =
    if not context.supplier_verified
    then verdict reject "Supplier is not verified" now
    else if not context.budget_available
    then verdict reject "Budget is not available for the requested amount" now
    else if ltb_ℤ context.auto_approval_threshold context.amount
    then verdict require_human_approval
        ("Amount ["
          <> number_text context.amount
          <> "] exceeds auto-approval threshold ["
          <> number_text context.auto_approval_threshold
          <> "]")
        now
    else verdict auto_approve
        "Supplier verified, budget available, amount within auto-approval threshold" now

unfoldable pub evaluate_infrastructure_scaling_policy :
    (ℤ → String) → String → InfrastructureScalingPolicyContext → PolicyEvaluationResult
evaluate_infrastructure_scaling_policy number_text now context =
    if ltb_ℤ context.max_replicas context.requested_replicas
    then verdict reject
        ("Requested replicas ["
          <> number_text context.requested_replicas
          <> "] exceeds tenant maximum ["
          <> number_text context.max_replicas
          <> "]")
        now
    else if context.is_scale_up && not context.budget_available
    then verdict reject
        ("Projected cost ["
          <> number_text context.projected_cost_usd
          <> "] exceeds available infrastructure budget")
        now
    else if ltb_ℤ context.confidence context.min_confidence_threshold
    then verdict require_human_approval
        ("Confidence ["
          <> number_text context.confidence
          <> "] below minimum threshold ["
          <> number_text context.min_confidence_threshold
          <> "] required for autonomous scaling")
        now
    else verdict auto_approve
        "Budget available, replica limit respected, confidence above threshold" now
