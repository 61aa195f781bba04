-- ===== src/Engine/Planner.antt =====
-- backend/app/engine/planner.py: what an outcome prior makes of a candidate, and the action
-- that is selected.
pub mod Selection
pub mod Priors
pub mod Safety
pub mod Gap
use varsten.Prelude.{
  String, Bool, true, false, not, ◌||◌, Option, none, some, List, [], ◌∷◌, str_eq, if◌then◌else◌,
}
use varsten.Prelude.Dict.{Dict, lookup, insert}
use varsten.Engine.Types.{
  CandidateStatus, QualityGateStatus, OptimizationRisk, RequestClassification, risky_or_unknown,
  OutcomePrior, PlannerInput, CacheEligibilityDecision, ReasonDetail, no_detail,
  CandidateOptimization, Mode, SelectedAction, selection_priority, OptimizationPlan,
}
use varsten.Engine.CachePolicy.{blocker, evaluate_cache_eligibility}
use varsten.Engine.Candidates.{
  unavailable_candidate, rejected_candidate, shadow_candidate, gate_detail, exact_cache_candidate,
  semantic_cache_candidate, routing_blockers, trim_blockers, policy_candidate,
  model_routing_candidate, token_trim_candidate, prompt_compression_candidate,
}
use varsten.Engine.Classification.{TextMethods, classify_request}

-- `candidate.status in _ENFORCEABLE`
abbrev pub is_enforceable : CandidateStatus → Bool
is_enforceable CandidateStatus.eligible = true
is_enforceable CandidateStatus.recommendable = true
is_enforceable CandidateStatus.rejected = false
is_enforceable CandidateStatus.shadow_only = false
is_enforceable CandidateStatus.unavailable = false

abbrev pub is_shadow_only : CandidateStatus → Bool
is_shadow_only CandidateStatus.shadow_only = true
is_shadow_only CandidateStatus.eligible = false
is_shadow_only CandidateStatus.recommendable = false
is_shadow_only CandidateStatus.rejected = false
is_shadow_only CandidateStatus.unavailable = false

-- `by_lever`, where a later candidate replaces an earlier one.
unfoldable pub by_lever :
    List CandidateOptimization → Dict CandidateOptimization → Dict CandidateOptimization
by_lever [] d = d
by_lever (c ∷ cs) d = by_lever cs (insert c.lever c d)

abbrev pub action_of : Mode → String → CandidateOptimization → SelectedAction
action_of mode lever c = record { action = lever; mode = mode; reason_code = c.reason_code }

abbrev pub observe : String → SelectedAction
observe reason = record { action = "observe"; mode = Mode.observe_only; reason_code = reason }

-- The end of the loop of `select_action`.
abbrev pub select_shadow : Option CandidateOptimization → SelectedAction
select_shadow none = observe "no_actionable_candidate"
select_shadow (some c) = action_of Mode.shadow c.lever c

-- The variable `shadow` after the candidate, when it is not enforceable.
abbrev pub next_shadow :
    Option CandidateOptimization → CandidateOptimization → Option CandidateOptimization
next_shadow (some s) c = some s
next_shadow none c = if is_shadow_only c.status then some c else none

-- The loop of `select_action` over the levers in their priority.
unfoldable pub select_from :
    Dict CandidateOptimization → Option CandidateOptimization → List String → SelectedAction
select_from d shadow [] = select_shadow shadow
select_from d shadow (lever ∷ levers) = elim (lookup lever d) [
  | none ↦ select_from d shadow levers
  | some c ↦
      if is_enforceable c.status
      then action_of Mode.enforce lever c
      else select_from d (next_shadow shadow c) levers
]

-- `select_action`
unfoldable pub select_action : List CandidateOptimization → Bool → SelectedAction
unfolding by_lever select_from
select_action candidates optimize_enabled =
    if not optimize_enabled
    then observe "optimization_disabled"
    else select_from (by_lever candidates []) none selection_priority

-- `_normalize_lever`
unfoldable pub normalize_lever : String → String
normalize_lever lever = if str_eq lever "model_downshift" then "model_routing" else lever

-- `_prior_for`
unfoldable pub prior_for : String → List OutcomePrior → Option OutcomePrior
unfolding normalize_lever
prior_for lever [] = none
prior_for lever (p ∷ ps) =
    if str_eq (normalize_lever p.lever) (normalize_lever lever) then some p else prior_for lever ps

-- `prior.readiness_status in {…}`
unfoldable pub is_ready : OutcomePrior → Bool
is_ready p =
    str_eq p.readiness_status "recommendable" || str_eq p.readiness_status "auto_apply_candidate"

-- Whether a prior may lift a candidate of this status and reason.
unfoldable pub may_lift : CandidateStatus → String → Bool
may_lift CandidateStatus.rejected reason = false
may_lift CandidateStatus.unavailable reason =
    str_eq reason "routing_policy_missing" || str_eq reason "trim_policy_missing"
may_lift CandidateStatus.eligible reason = true
may_lift CandidateStatus.recommendable reason = true
may_lift CandidateStatus.shadow_only reason = true

-- `_with_outcome_prior`, with the prior that was found.
unfoldable pub lift_by : Option OutcomePrior → CandidateOptimization → CandidateOptimization
unfolding may_lift is_ready
lift_by none c = c
lift_by (some p) c =
    let detail = record c.reason_detail { outcome_prior = some p } in
    if not (may_lift c.status c.reason_code)
    then record c { reason_detail = detail }
    else if not (is_ready p)
    then record c { reason_detail = detail }
    else record c {
      status = CandidateStatus.recommendable;
      quality_gate = QualityGateStatus.passed;
      risk = OptimizationRisk.low;
      reason_code = "outcome_prior_recommendable";
      reason_detail = detail;
      estimated_savings_usd = p.average_gross_savings_usd;
    }

-- `_with_outcome_prior`
unfoldable pub with_outcome_prior :
    CandidateOptimization → List OutcomePrior → CandidateOptimization
unfolding lift_by
with_outcome_prior c priors = lift_by (prior_for c.lever priors) c

-- `request_facts or body`
abbrev pub facts_of : PlannerInput → varsten.Engine.Types.RequestFacts
facts_of i = elim i.request_facts [ none ↦ i.body_facts | some facts ↦ facts ]

-- The candidates of `build_optimization_plan`.
unfoldable pub plan_candidates : PlannerInput → RequestClassification → List CandidateOptimization
plan_candidates i c =
    with_outcome_prior (exact_cache_candidate i c) i.outcome_priors
    ∷ with_outcome_prior (semantic_cache_candidate i c) i.outcome_priors
    ∷ with_outcome_prior (model_routing_candidate i c) i.outcome_priors
    ∷ with_outcome_prior (token_trim_candidate i c) i.outcome_priors
    ∷ with_outcome_prior (prompt_compression_candidate i c) i.outcome_priors
    ∷ []

-- `build_optimization_plan`
unfoldable pub build_optimization_plan : TextMethods → PlannerInput → OptimizationPlan
unfolding plan_candidates
build_optimization_plan py i =
    let c = classify_request py (facts_of i) i.context in
    let candidates = plan_candidates i c in
    record {
      request_id = i.request_id;
      provider = i.provider;
      model = i.model;
      classification = c;
      candidates = candidates;
      selected = select_action candidates i.optimize_enabled;
    }
