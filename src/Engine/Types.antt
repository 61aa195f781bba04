-- ===== src/Engine/Types.antt =====
-- backend/app/engine/types.py: the records of the planner. Levers and reason codes are texts, as in the
-- code; a confidence is in thousandths.
use varsten.Prelude.{
  ℕ, String, Bool, true, false, ◌||◌, Option, none, some, List, [], ◌∷◌, str_eq, if◌then◌else◌,
}

pub data CandidateStatus : Type 0 where
  eligible : CandidateStatus
  recommendable : CandidateStatus
  rejected : CandidateStatus
  shadow_only : CandidateStatus
  unavailable : CandidateStatus

pub data QualityGateStatus : Type 0 where
  passed : QualityGateStatus
  not_required : QualityGateStatus
  required : QualityGateStatus
  blocked : QualityGateStatus
  unknown_gate : QualityGateStatus

pub data OptimizationRisk : Type 0 where
  low : OptimizationRisk
  medium : OptimizationRisk
  high : OptimizationRisk
  unknown : OptimizationRisk

pub record RequestClassification : Type 0 where
  pub task_type : Option String
  pub task_confidence : Option ℕ
  pub risk_level : OptimizationRisk
  pub prompt_chars : ℕ
  pub message_count : ℕ
  pub has_tools : Bool
  pub wants_json : Bool
  pub has_multimodal : Bool
  pub personalized : Bool
  pub freshness_sensitive : Bool
  pub unknown_task : Bool
  pub reason_codes : List String

abbrev pub is_high_or_unknown : OptimizationRisk → Bool
is_high_or_unknown OptimizationRisk.low = false
is_high_or_unknown OptimizationRisk.medium = false
is_high_or_unknown OptimizationRisk.high = true
is_high_or_unknown OptimizationRisk.unknown = true

-- `RequestClassification.risky_or_unknown`
unfoldable pub risky_or_unknown : RequestClassification → Bool
risky_or_unknown c = is_high_or_unknown c.risk_level || c.unknown_task

pub record RequestFacts : Type 0 where
  pub prompt_chars : ℕ
  pub message_count : ℕ
  pub has_tools : Bool
  pub wants_json : Bool
  pub has_multimodal : Bool
  pub freshness_signal : Bool
  pub personalized_signal : Bool
  pub high_risk_signal : Bool

pub record OutcomePrior : Type 0 where
  pub lever : String
  pub readiness_status : String
  pub sample_count : ℕ
  pub measured_savings_count : ℕ
  pub total_gross_savings_usd : Option String
  pub average_gross_savings_usd : Option String
  pub quality_pass_rate : Option String
  pub feedback_acceptance_rate : Option String
  pub reason_codes : List String

-- The fields of `RequestContext` of backend/app/proxy/request_context.py that the planner reads.
pub record TaskContext : Type 0 where
  pub customer_id : Option String
  pub external_user_id : Option String
  pub user_id : Option String
  pub task_type : Option String
  pub task_confidence : Option ℕ
  pub risk_level : Option String

-- `body_facts` is what `normalize_request_facts` gives for the body.
pub record PlannerInput : Type 0 where
  pub request_id : String
  pub provider : String
  pub model : String
  pub body_facts : RequestFacts
  pub request_facts : Option RequestFacts
  pub context : TaskContext
  pub optimize_enabled : Bool
  pub exact_cache_enabled : Bool
  pub semantic_cache_enabled : Bool
  pub routing_policy_present : Bool
  pub routing_policy_id : Option String
  pub trim_policy_present : Bool
  pub trim_policy_id : Option String
  pub compression_policy_present : Bool
  pub compression_policy_id : Option String
  pub outcome_priors : List OutcomePrior

-- `CacheEligibilityDecision` of backend/app/engine/cache_policy.py; its mode and whether it is enforced
-- are the defaults in every decision.
pub record CacheEligibilityDecision : Type 0 where
  pub lever : String
  pub allowed : Bool
  pub reason_code : String
  pub blockers : List String

-- What the dictionary `reason_detail` holds.
pub record ReasonDetail : Type 0 where
  pub cache_gate : Option CacheEligibilityDecision
  pub blockers : List String
  pub outcome_prior : Option OutcomePrior

abbrev pub no_detail : ReasonDetail
no_detail = record { cache_gate = none; blockers = []; outcome_prior = none }

pub record CandidateOptimization : Type 0 where
  pub lever : String
  pub status : CandidateStatus
  pub quality_gate : QualityGateStatus
  pub risk : OptimizationRisk
  pub reason_code : String
  pub reason_detail : ReasonDetail
  pub policy_id : Option String
  pub estimated_savings_usd : Option String

pub data Mode : Type 0 where
  enforce : Mode
  shadow : Mode
  observe_only : Mode

pub record SelectedAction : Type 0 where
  pub action : String
  pub mode : Mode
  pub reason_code : String

-- `SELECTION_PRIORITY`
abbrev pub selection_priority : List String
selection_priority =
    "exact_cache" ∷ "semantic_cache" ∷ "model_routing" ∷ "token_trim" ∷ "prompt_compression" ∷ []

pub record OptimizationPlan : Type 0 where
  pub request_id : String
  pub provider : String
  pub model : String
  pub classification : RequestClassification
  pub candidates : List CandidateOptimization
  pub selected : SelectedAction

-- The routing aliases of `candidate_for`.
unfoldable pub canonical_lever : String → String
canonical_lever lever =
    if str_eq lever "model_downshift" || str_eq lever "smart_routing"
    then "model_routing"
    else lever

-- `OptimizationPlan.candidate_for`, over the candidates of the plan.
unfoldable pub candidate_for : String → List CandidateOptimization → Option CandidateOptimization
unfolding canonical_lever
candidate_for lever [] = none
candidate_for lever (c ∷ cs) =
    if str_eq (canonical_lever c.lever) (canonical_lever lever)
    then some c
    else candidate_for lever cs
