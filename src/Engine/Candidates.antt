-- ===== src/Engine/Candidates.antt =====
-- The candidate of each lever: the second half of backend/app/engine/planner.py.
use varsten.Prelude.{String, not, Option, none, some, List, [], ◌∷◌, if◌then◌else◌}
use varsten.Engine.Types.{
  CandidateStatus, QualityGateStatus, OptimizationRisk, RequestClassification, risky_or_unknown,
  PlannerInput, CacheEligibilityDecision, ReasonDetail, no_detail, CandidateOptimization,
}
use varsten.Engine.CachePolicy.{blocker, evaluate_cache_eligibility}

-- `_unavailable`
abbrev pub unavailable_candidate : String → RequestClassification → String → CandidateOptimization
unavailable_candidate lever c reason = record {
  lever = lever;
  status = CandidateStatus.unavailable;
  quality_gate = QualityGateStatus.blocked;
  risk = c.risk_level;
  reason_code = reason;
  reason_detail = no_detail;
  policy_id = none;
  estimated_savings_usd = none;
}

-- A candidate that a blocker rejects.
abbrev pub rejected_candidate :
    String → RequestClassification → String → ReasonDetail → Option String → CandidateOptimization
rejected_candidate lever c reason detail policy = record {
  lever = lever;
  status = CandidateStatus.rejected;
  quality_gate = QualityGateStatus.blocked;
  risk = c.risk_level;
  reason_code = reason;
  reason_detail = detail;
  policy_id = policy;
  estimated_savings_usd = none;
}

-- A candidate that still needs its quality gate.
abbrev pub shadow_candidate : String → String → ReasonDetail → Option String → CandidateOptimization
shadow_candidate lever reason detail policy = record {
  lever = lever;
  status = CandidateStatus.shadow_only;
  quality_gate = QualityGateStatus.required;
  risk = OptimizationRisk.medium;
  reason_code = reason;
  reason_detail = detail;
  policy_id = policy;
  estimated_savings_usd = none;
}

abbrev pub gate_detail : CacheEligibilityDecision → ReasonDetail
gate_detail gate = record no_detail { cache_gate = some gate }

-- `_exact_cache_candidate`
unfoldable pub exact_cache_candidate : PlannerInput → RequestClassification → CandidateOptimization
exact_cache_candidate i c =
    let gate = evaluate_cache_eligibility "exact_cache" c in
    if not i.optimize_enabled
    then unavailable_candidate "exact_cache" c "optimization_disabled"
    else if not i.exact_cache_enabled
    then unavailable_candidate "exact_cache" c "exact_cache_disabled"
    else if not gate.allowed
    then rejected_candidate "exact_cache" c "cache_requires_explicit_policy" (gate_detail gate) none
    else record {
      lever = "exact_cache";
      status = CandidateStatus.eligible;
      quality_gate = QualityGateStatus.not_required;
      risk = OptimizationRisk.low;
      reason_code = "exact_cache_candidate";
      reason_detail = gate_detail gate;
      policy_id = none;
      estimated_savings_usd = none;
    }

-- `_semantic_cache_candidate`
unfoldable pub semantic_cache_candidate :
    PlannerInput → RequestClassification → CandidateOptimization
semantic_cache_candidate i c =
    let gate = evaluate_cache_eligibility "semantic_cache" c in
    if not i.optimize_enabled
    then unavailable_candidate "semantic_cache" c "optimization_disabled"
    else if not i.semantic_cache_enabled
    then unavailable_candidate "semantic_cache" c "semantic_cache_disabled"
    else if not gate.allowed
    then rejected_candidate "semantic_cache" c "semantic_cache_blocked_by_risk" (gate_detail gate)
        none
    else shadow_candidate "semantic_cache" "semantic_cache_requires_quality_gate" (gate_detail gate)
        none

-- `_routing_blockers`
unfoldable pub routing_blockers : RequestClassification → List String
routing_blockers c = blocker (risky_or_unknown c) "risky_or_unknown" (
    blocker c.personalized "personalized_request"
      (blocker c.has_multimodal "multimodal_content" []))

-- `_trim_blockers`
unfoldable pub trim_blockers : RequestClassification → List String
trim_blockers c = blocker (risky_or_unknown c) "risky_or_unknown" (
    blocker c.has_tools "tools_present"
      (blocker c.wants_json "json_output" (blocker c.has_multimodal "multimodal_content" [])))

-- The end of the three candidates that a policy stands behind: the blockers, or the shadow candidate.
abbrev pub policy_candidate :
    String
    → RequestClassification
    → List String
    → String
    → String
    → Option String
    → CandidateOptimization
policy_candidate lever c [] rejects needs policy = shadow_candidate lever needs no_detail policy
policy_candidate lever c (b ∷ bs) rejects needs policy =
    rejected_candidate lever c rejects (record no_detail { blockers = b ∷ bs }) policy

-- `_model_routing_candidate`
unfoldable pub model_routing_candidate :
    PlannerInput → RequestClassification → CandidateOptimization
model_routing_candidate i c =
    if not i.optimize_enabled
    then unavailable_candidate "model_routing" c "optimization_disabled"
    else if not i.routing_policy_present
    then unavailable_candidate "model_routing" c "routing_policy_missing"
    else policy_candidate "model_routing" c (routing_blockers c) "routing_blocked_by_risk"
        "routing_requires_eval_gate" i.routing_policy_id

-- `_token_trim_candidate`
unfoldable pub token_trim_candidate : PlannerInput → RequestClassification → CandidateOptimization
token_trim_candidate i c =
    if not i.optimize_enabled
    then unavailable_candidate "token_trim" c "optimization_disabled"
    else if not i.trim_policy_present
    then unavailable_candidate "token_trim" c "trim_policy_missing"
    else policy_candidate "token_trim" c (trim_blockers c) "trim_blocked_by_context_risk"
        "trim_requires_quality_gate" i.trim_policy_id

-- `_prompt_compression_candidate`
unfoldable pub prompt_compression_candidate :
    PlannerInput → RequestClassification → CandidateOptimization
prompt_compression_candidate i c =
    if not i.optimize_enabled
    then unavailable_candidate "prompt_compression" c "optimization_disabled"
    else if not i.compression_policy_present
    then unavailable_candidate "prompt_compression" c "compression_policy_missing"
    else policy_candidate "prompt_compression" c (trim_blockers c)
        "compression_blocked_by_context_risk" "compression_requires_quality_gate"
        i.compression_policy_id
