-- ===== src/Engine/Classification.antt =====
-- backend/app/engine/classification.py: the features of a request that the planner goes by.
use varsten.Prelude.{
  ℕ, String, Bool, true, false, not, ◌||◌, Option, none, some, List, [], ◌∷◌, str_eq, ltb,
  if◌then◌else◌,
}
use text.Mathlib.Text.{find?}
use varsten.Engine.Types.{OptimizationRisk, RequestClassification, RequestFacts, TaskContext}
use varsten.Engine.CachePolicy.{blocker}

-- Python's `str.lower` and `str.strip`, which go by the tables of Unicode.
pub record TextMethods : Type 0 where
  pub lower : String → String
  pub strip : String → String

abbrev pub text_or_empty : Option String → String
text_or_empty none = ""
text_or_empty (some s) = s

-- `needle in text`
abbrev pub contains : String → String → Bool
contains needle text = elim (find? text needle) [ none ↦ false | some _ ↦ true ]

-- Whether a field is set to a text that is not empty.
abbrev pub is_set : Option String → Bool
is_set none = false
is_set (some s) = not (str_eq s "")

abbrev high_risk_task_fragments : List String
high_risk_task_fragments =
    "compliance" ∷ "financial" ∷ "health" ∷ "hr" ∷ "legal" ∷ "medical" ∷ "policy" ∷ "security" ∷ []

unfoldable pub any_in : String → List String → Bool
any_in text [] = false
any_in text (needle ∷ needles) = contains needle text || any_in text needles

-- `_has_high_risk_signal`
unfoldable pub has_high_risk_signal : TextMethods → Option String → RequestFacts → Bool
unfolding any_in
has_high_risk_signal py task_type facts =
    any_in (py.lower (text_or_empty task_type)) high_risk_task_fragments || facts.high_risk_signal

-- `_has_personal_context`
unfoldable pub has_personal_context : TaskContext → Bool
has_personal_context ctx =
    is_set ctx.customer_id || is_set ctx.external_user_id || is_set ctx.user_id

-- `_risk_from_context`
unfoldable pub risk_from_context : TextMethods → Option String → OptimizationRisk
risk_from_context py raw =
    let normalized = py.lower (py.strip (text_or_empty raw)) in
    if str_eq normalized "low"
    then OptimizationRisk.low
    else if str_eq normalized "medium"
    then OptimizationRisk.medium
    else if str_eq normalized "high"
    then OptimizationRisk.high
    else OptimizationRisk.unknown

-- `task_confidence is not None and task_confidence < 0.5`
unfoldable pub has_low_confidence : Option ℕ → Bool
has_low_confidence none = false
has_low_confidence (some c) = ltb c 500

abbrev pub risk_code : OptimizationRisk → List String → List String
risk_code OptimizationRisk.high rest = "risk_high" ∷ rest
risk_code OptimizationRisk.unknown rest = "risk_unknown" ∷ rest
risk_code OptimizationRisk.low rest = rest
risk_code OptimizationRisk.medium rest = rest

-- `classify_request` on the facts of the request.
unfoldable pub classify_request : TextMethods → RequestFacts → TaskContext → RequestClassification
unfolding has_high_risk_signal has_personal_context risk_from_context has_low_confidence
classify_request py facts ctx =
    let personalized = has_personal_context ctx || facts.personalized_signal in
    let low = has_low_confidence ctx.task_confidence in
    let unknown_task = not (is_set ctx.task_type) || low in
    let signal = has_high_risk_signal py ctx.task_type facts in
    let risk = if signal then OptimizationRisk.high else risk_from_context py ctx.risk_level in
    record {
      task_type = ctx.task_type;
      task_confidence = ctx.task_confidence;
      risk_level = risk;
      prompt_chars = facts.prompt_chars;
      message_count = facts.message_count;
      has_tools = facts.has_tools;
      wants_json = facts.wants_json;
      has_multimodal = facts.has_multimodal;
      personalized = personalized;
      freshness_sensitive = facts.freshness_signal;
      unknown_task = unknown_task;
      reason_codes = blocker unknown_task "unknown_task" (
          blocker low "low_task_confidence" (
            risk_code risk (
              blocker facts.has_tools "tools_present" (
                blocker facts.wants_json "json_output" (
                  blocker facts.has_multimodal "multimodal_content" (
                    blocker personalized "personalized_request" (
                      blocker facts.freshness_signal "freshness_sensitive"
                        (blocker signal "high_risk_signal" []))))))));
    }
