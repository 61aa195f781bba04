-- ===== src/Tests/Plans.antt =====
-- The planner at concrete inputs.
use varsten.Prelude.{◌≡◌, refl, ◌≢◌, ◌⊎◌, true, false, none, some, List, [], ◌∷◌}
use varsten.Engine.Types.{
  CandidateStatus, RequestFacts, TaskContext, OutcomePrior, PlannerInput, CandidateOptimization,
  Mode, selection_priority, risky_or_unknown,
}
use varsten.Engine.Classification.{TextMethods, classify_request}
use varsten.Engine.Candidates.{
  exact_cache_candidate, model_routing_candidate, rejected_candidate, shadow_candidate,
}
use varsten.Engine.Types.{no_detail}
use varsten.Engine.Planner.{
  by_lever, select_action, prior_for, is_ready, with_outcome_prior, build_optimization_plan,
}
use varsten.Engine.Planner.Selection.{two_passes, select_action-two_passes}
use varsten.Engine.Planner.Priors.{HasReady, with_outcome_prior-status}
use varsten.Engine.Planner.Gap.{build_optimization_plan_gap}
use varsten.Engine.Planner.Safety.{IsCacheable, build_optimization_plan-IsCacheable}

-- Texts that are lower case and stripped already.
abbrev pub plain_text : TextMethods
plain_text = record { lower = λ s. s; strip = λ s. s }

abbrev pub facts : RequestFacts
facts = record {
  prompt_chars = 40;
  message_count = 1;
  has_tools = false;
  wants_json = false;
  has_multimodal = false;
  freshness_signal = false;
  personalized_signal = false;
  high_risk_signal = false;
}

abbrev pub low_risk : TaskContext
low_risk = record {
  customer_id = none;
  external_user_id = none;
  user_id = none;
  task_type = some "extract";
  task_confidence = some 900;
  risk_level = some "low";
}

abbrev ready_prior : OutcomePrior
ready_prior = record {
  lever = "model_downshift";
  readiness_status = "recommendable";
  sample_count = 100;
  measured_savings_count = 90;
  total_gross_savings_usd = some "10";
  average_gross_savings_usd = some "0.1";
  quality_pass_rate = some "0.99";
  feedback_acceptance_rate = none;
  reason_codes = [];
}

abbrev pub input : PlannerInput
input = record {
  request_id = "q";
  provider = "openai";
  model = "gpt-4o";
  body_facts = facts;
  request_facts = none;
  context = low_risk;
  optimize_enabled = true;
  exact_cache_enabled = true;
  semantic_cache_enabled = false;
  routing_policy_present = false;
  routing_policy_id = none;
  trim_policy_present = false;
  trim_policy_id = none;
  compression_policy_present = false;
  compression_policy_id = none;
  outcome_priors = [];
}

input-enforces : (build_optimization_plan plain_text input).selected.mode ≡ Mode.enforce
unfolding build_optimization_plan select_action varsten.Prelude.Dict.lookup
    varsten.Prelude.Dict.insert with_outcome_prior prior_for exact_cache_candidate
    varsten.Engine.CachePolicy.evaluate_cache_eligibility risky_or_unknown classify_request
    varsten.Engine.Candidates.semantic_cache_candidate model_routing_candidate
    varsten.Engine.Candidates.token_trim_candidate
    varsten.Engine.Candidates.prompt_compression_candidate
input-enforces = refl

pub none_ready : HasReady [] → ⊥
none_ready (p, there, ready) = there

build_optimization_plan-IsCacheable_example :
    ((build_optimization_plan plain_text input).selected.action ≡ "exact_cache")
    × (true ≡ true)
    × (true ≡ true)
    × IsCacheable (build_optimization_plan plain_text input).classification
build_optimization_plan-IsCacheable_example =
    build_optimization_plan-IsCacheable plain_text input none_ready input-enforces

abbrev candidates : List CandidateOptimization
candidates =
    shadow_candidate "model_routing" "routing_requires_eval_gate" no_detail none
    ∷ shadow_candidate "semantic_cache" "semantic_cache_requires_quality_gate" no_detail none
    ∷ []

select_action-two_passes_example :
    select_action candidates true ≡ two_passes (by_lever candidates []) none selection_priority
select_action-two_passes_example = select_action-two_passes candidates true

with_outcome_prior-status_example :
    let c = shadow_candidate "model_routing" "routing_requires_eval_gate" no_detail none in
    ((with_outcome_prior c (ready_prior ∷ [])).status ≡ CandidateStatus.shadow_only)
    ⊎ (((with_outcome_prior c (ready_prior ∷ [])).status ≡ CandidateStatus.recommendable)
        × (CandidateStatus.shadow_only ≢ CandidateStatus.rejected)
        × HasReady (ready_prior ∷ []))
with_outcome_prior-status_example =
    with_outcome_prior-status
      (shadow_candidate "model_routing" "routing_requires_eval_gate" no_detail none)
      (ready_prior ∷ [])

abbrev risky_context : TaskContext
risky_context = record low_risk { task_type = some "medical triage"; risk_level = some "high" }

abbrev learned : PlannerInput
learned = record input { context = risky_context; outcome_priors = ready_prior ∷ [] }

learned-risky : risky_or_unknown (build_optimization_plan plain_text learned).classification ≡ true
unfolding build_optimization_plan risky_or_unknown classify_request
learned-risky = refl

ready_prior-found : prior_for "model_routing" (ready_prior ∷ []) ≡ some ready_prior
unfolding prior_for
ready_prior-found = refl

ready_prior-ready : is_ready ready_prior ≡ true
unfolding is_ready
ready_prior-ready = refl

build_optimization_plan_gap_example :
    let plan = build_optimization_plan plain_text learned in
    let with_policy = record learned { routing_policy_present = true } in
    (plan.selected.action ≡ "model_routing")
    × (plan.selected.mode ≡ Mode.enforce)
    × ((with_outcome_prior
          (model_routing_candidate with_policy plan.classification)
          (ready_prior ∷ [])).status
        ≡ CandidateStatus.rejected)
build_optimization_plan_gap_example =
    build_optimization_plan_gap plain_text learned ready_prior refl refl ready_prior-found
      ready_prior-ready learned-risky
