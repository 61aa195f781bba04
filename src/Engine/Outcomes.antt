-- ===== src/Engine/Outcomes.antt =====
-- backend/app/engine/outcomes.py: the evidence of a segment of decisions, and what it is ready for. Weights
-- are whole numbers of 10⁻²⁰, savings of 10⁻¹² dollars; the counters that only a report shows are left out.
pub mod Ready
pub mod Partition
pub mod Keys
pub mod Sums
pub mod Exact
use varsten.Prelude.{
  ℕ, suc, ◌+◌, ◌*◌, String, Bool, true, false, not, ◌&&◌, ◌||◌, Option, none, some, List, [], ◌∷◌,
  str_eq, ltb, leb, ◌==◌, if◌then◌else◌,
}
use mathlib.Core.List.{◌++◌}
use varsten.Prelude.Int.{ℤ, pos, negsuc, sub_ℕ, ltb_ℤ, ◌+ℤ◌}
use varsten.Prelude.Dict.{Dict, lookup, insert}
use varsten.Engine.Types.{OutcomePrior}

-- The weight of a decision that has not decayed.
abbrev pub one : ℕ
one = 100000000000000000000

-- `_SegmentKey`
pub record SegmentKey : Type 0 where
  pub route_key : String
  pub task_type : String
  pub risk_level : String
  pub provider_requested : String
  pub model_requested : String
  pub provider_chosen : String
  pub model_chosen : String
  pub lever : String

-- `_SegmentStats`
pub record SegmentStats : Type 0 where
  pub sample_weight : ℕ
  pub measured_savings_weight : ℕ
  pub raw_sample_count : ℕ
  pub raw_measured_savings_count : ℕ
  pub total_gross_savings : ℤ
  pub quality_measured_weight : ℕ
  pub quality_passed_weight : ℕ
  pub raw_quality_measured_count : ℕ
  pub raw_quality_passed_count : ℕ
  pub feedback_weight : ℕ
  pub feedback_decision_weights : Dict ℕ
  pub raw_feedback_count : ℕ
  pub accepted_weight : ℕ
  pub corrective_weight : ℕ
  pub raw_accepted_count : ℕ
  pub raw_corrective_count : ℕ

abbrev pub new_stats : SegmentStats
new_stats = record {
  sample_weight = 0;
  measured_savings_weight = 0;
  raw_sample_count = 0;
  raw_measured_savings_count = 0;
  total_gross_savings = pos 0;
  quality_measured_weight = 0;
  quality_passed_weight = 0;
  raw_quality_measured_count = 0;
  raw_quality_passed_count = 0;
  feedback_weight = 0;
  feedback_decision_weights = [];
  raw_feedback_count = 0;
  accepted_weight = 0;
  corrective_weight = 0;
  raw_accepted_count = 0;
  raw_corrective_count = 0;
}

-- `savings * weight`
abbrev pub weighted : ℤ → ℕ → ℤ
weighted (pos n) w = pos (n * w)
weighted (negsuc n) w = sub_ℕ 0 (suc n * w)

abbrev pub add_savings : Option ℤ → ℕ → SegmentStats → SegmentStats
add_savings none w s = s
add_savings (some savings) w s = record s {
  raw_measured_savings_count = s.raw_measured_savings_count + 1;
  measured_savings_weight = s.measured_savings_weight + w;
  total_gross_savings = s.total_gross_savings +ℤ weighted savings w;
}

abbrev pub add_quality : Option Bool → ℕ → SegmentStats → SegmentStats
add_quality none w s = s
add_quality (some passed) w s = record s {
  raw_quality_measured_count = s.raw_quality_measured_count + 1;
  quality_measured_weight = s.quality_measured_weight + w;
  raw_quality_passed_count = s.raw_quality_passed_count + (if passed then 1 else 0);
  quality_passed_weight = s.quality_passed_weight + (if passed then w else 0);
}

-- `_SegmentStats.add_decision`, with the savings and the quality of the row.
unfoldable pub add_decision : Option ℤ → Option Bool → ℕ → SegmentStats → SegmentStats
add_decision savings quality_ok w s = add_quality quality_ok w (
    add_savings savings w
      (record s { raw_sample_count = s.raw_sample_count + 1; sample_weight = s.sample_weight + w }))

-- `outcome in _CORRECTIVE_OUTCOMES`
abbrev pub is_corrective : String → Bool
is_corrective o =
    str_eq o "rejected"
    || str_eq o "edited"
    || str_eq o "regenerated"
    || str_eq o "escalated"
    || str_eq o "overridden"

abbrev pub weight_before : Option ℕ → ℕ
weight_before none = 0
weight_before (some w) = w

-- `_SegmentStats.add_feedback`
unfoldable pub add_feedback : String → String → ℕ → SegmentStats → SegmentStats
unfolding lookup insert
add_feedback outcome decision_id w s =
    let before = weight_before (lookup decision_id s.feedback_decision_weights) in
    let accepted = str_eq outcome "accepted" in
    let corrective = not accepted && is_corrective outcome in
    record s {
      raw_feedback_count = s.raw_feedback_count + 1;
      feedback_weight = s.feedback_weight + w;
      feedback_decision_weights =
          insert decision_id (if ltb before w then w else before) s.feedback_decision_weights;
      raw_accepted_count = s.raw_accepted_count + (if accepted then 1 else 0);
      accepted_weight = s.accepted_weight + (if accepted then w else 0);
      raw_corrective_count = s.raw_corrective_count + (if corrective then 1 else 0);
      corrective_weight = s.corrective_weight + (if corrective then w else 0);
    }

-- `sum(self.feedback_decision_weights.values())`
unfoldable pub sum_weights : Dict ℕ → ℕ
sum_weights [] = 0
sum_weights ((k, w) ∷ d) = w + sum_weights d

-- `rate is not None and rate >= bound`, for a rate of two weights and a bound in ten thousandths.
abbrev pub rate_at_least : ℕ → ℕ → ℕ → Bool
rate_at_least n d bound = ltb 0 d && leb (bound * d) (10000 * n)

-- `rate is not None and rate < bound`
abbrev pub rate_below : ℕ → ℕ → ℕ → Bool
rate_below n d bound = ltb 0 d && ltb (10000 * n) (bound * d)

-- `_savings_proven`
unfoldable pub savings_proven : SegmentStats → Bool
savings_proven s =
    ltb 0 s.measured_savings_weight
    && ltb_ℤ (pos 0) s.total_gross_savings
    && rate_at_least s.measured_savings_weight s.sample_weight 8000

-- `_savings_gap_reason`
unfoldable pub savings_gap_reason : SegmentStats → String
savings_gap_reason s =
    if s.measured_savings_weight == 0
    then "no_measured_savings"
    else if not (ltb_ℤ (pos 0) s.total_gross_savings)
    then "gross_savings_not_positive"
    else "savings_measurement_coverage_low"

abbrev pub reason_if : Bool → String → List String → List String
reason_if b reason rest = if b then reason ∷ rest else rest

-- `_base_readiness_reasons`
unfoldable pub base_readiness_reasons : SegmentStats → List String
base_readiness_reasons s =
    reason_if (ltb s.sample_weight (5 * one)) "sample_count_insufficient"
      (reason_if (s.feedback_weight == 0) "no_decision_linked_feedback" [])

-- `_quality_risk_reasons`
unfoldable pub quality_risk_reasons : SegmentStats → List String
quality_risk_reasons s =
    reason_if (rate_below s.quality_passed_weight s.quality_measured_weight 9800)
      "quality_pass_rate_low"
      (reason_if (ltb 0 s.corrective_weight) "corrective_feedback_present" (
        reason_if (rate_below s.accepted_weight (s.accepted_weight + s.corrective_weight) 9500)
          "acceptance_rate_low" []))

-- `_auto_ready`
unfoldable pub auto_ready : SegmentStats → Bool
unfolding sum_weights
auto_ready s =
    leb (20 * one) s.sample_weight
    && rate_at_least s.measured_savings_weight s.sample_weight 9500
    && rate_at_least (sum_weights s.feedback_decision_weights) s.sample_weight 5000
    && (s.quality_measured_weight == 0
        || rate_at_least s.quality_passed_weight s.quality_measured_weight 9950)
    && rate_at_least s.accepted_weight (s.accepted_weight + s.corrective_weight) 9900

pub record Readiness : Type 0 where
  pub status : String
  pub reason_codes : List String

abbrev pub is_empty : List String → Bool
is_empty rs = elim rs [ [] ↦ true | _ ↦ false ]

-- `_readiness`
unfoldable pub readiness : SegmentStats → Readiness
unfolding savings_proven savings_gap_reason base_readiness_reasons quality_risk_reasons auto_ready
    sum_weights
readiness s =
    let proven = savings_proven s in
    let quality_reasons = quality_risk_reasons s in
    let reasons =
      base_readiness_reasons s
      ++ ((if proven then [] else savings_gap_reason s ∷ []) ++ quality_reasons) in
    if ltb s.sample_weight (5 * one) || (s.feedback_weight == 0)
    then record { status = "insufficient_data"; reason_codes = reasons }
    else if not proven
    then record { status = "savings_unproven"; reason_codes = reasons }
    else if not (is_empty quality_reasons)
    then record { status = "quality_risk"; reason_codes = reasons }
    else if auto_ready s
    then record { status = "auto_apply_candidate"; reason_codes = [] }
    else record {
      status = "recommendable";
      reason_codes =
          reasons
          ++ (reason_if (rate_below (sum_weights s.feedback_decision_weights) s.sample_weight 2000)
              "feedback_coverage_low_for_auto"
              (reason_if (ltb s.sample_weight (20 * one)) "sample_count_below_auto_threshold" []));
    }

-- A row of the decision ledger: what `_lever` and `_segment_key` read, the decision's id, and the savings,
-- the quality and the decayed weight of the row.
pub record DecisionRow : Type 0 where
  pub optimization_applied : Bool
  pub lever : Option String
  pub cache_status : Option String
  pub decision_type : Option String
  pub key : SegmentKey
  pub decision_id : Option String
  pub savings : Option ℤ
  pub quality_ok : Option Bool
  pub weight : ℕ

pub record FeedbackRow : Type 0 where
  pub decision_id : Option String
  pub outcome : String

abbrev pub is_text : String → Option String → Bool
is_text t none = false
is_text t (some s) = str_eq s t

-- `_lever`, from the row's own lever or else from its cache status and type.
unfoldable pub lever_of : Option String → Option String → Option String → Option String
lever_of lever cache_status decision_type =
    let from_cache =
      (if is_text "semantic" cache_status
        then some "semantic_cache"
        else if is_text "hit" cache_status
        then some "exact_cache"
        else if is_text "cache" decision_type
        then some "cache"
        else none) in
    elim lever [ none ↦ from_cache | some l ↦ if str_eq l "" then from_cache else some l ]

-- `_segment_key`
unfoldable pub segment_key : DecisionRow → Option SegmentKey
unfolding lever_of
segment_key r = elim (lever_of r.lever r.cache_status r.decision_type) [
  | none ↦ none
  | some l ↦ some (record r.key { lever = l })
]

abbrev pub eq_key : SegmentKey → SegmentKey → Bool
eq_key a b =
    str_eq a.route_key b.route_key
    && str_eq a.task_type b.task_type
    && str_eq a.risk_level b.risk_level
    && str_eq a.provider_requested b.provider_requested
    && str_eq a.model_requested b.model_requested
    && str_eq a.provider_chosen b.provider_chosen
    && str_eq a.model_chosen b.model_chosen
    && str_eq a.lever b.lever

abbrev pub Segments : Type 0
Segments = List (SegmentKey × SegmentStats)

-- `segments[key].update(…)` on the default dict: a new key gets new statistics.
unfoldable pub update_segment : SegmentKey → (SegmentStats → SegmentStats) → Segments → Segments
update_segment key f [] = (key, f new_stats) ∷ []
update_segment key f ((k, s) ∷ segments) =
    if eq_key k key then (k, f s) ∷ segments else (k, s) ∷ update_segment key f segments

-- The two dicts of `score_optimization_outcomes`.
pub record Evidence : Type 0 where
  pub segments : Segments
  pub decision_segments : Dict (SegmentKey × ℕ)

abbrev pub counted : Option SegmentKey → Option String → DecisionRow → Evidence → Evidence
counted none id r e = e
counted (some key) none r e = e
counted (some key) (some id) r e = record {
  segments = update_segment key (add_decision r.savings r.quality_ok r.weight) e.segments;
  decision_segments = insert id (key, r.weight) e.decision_segments;
}

-- The first loop.
unfoldable pub add_decisions : List DecisionRow → Evidence → Evidence
unfolding segment_key update_segment add_decision insert
add_decisions [] e = e
add_decisions (r ∷ rs) e =
    add_decisions rs
      (if r.optimization_applied then counted (segment_key r) r.decision_id r e else e)

abbrev pub told : Option (SegmentKey × ℕ) → String → String → Segments → Segments
told none id outcome segments = segments
told (some (key, w)) id outcome segments = update_segment key (add_feedback outcome id w) segments

abbrev pub linked : Dict (SegmentKey × ℕ) → Option String → String → Segments → Segments
linked decisions none outcome segments = segments
linked decisions (some id) outcome segments = told (lookup id decisions) id outcome segments

-- The second loop.
unfoldable pub add_feedbacks : Dict (SegmentKey × ℕ) → List FeedbackRow → Segments → Segments
unfolding update_segment add_feedback lookup
add_feedbacks decisions [] segments = segments
add_feedbacks decisions (r ∷ rs) segments =
    add_feedbacks decisions rs (linked decisions r.decision_id r.outcome segments)

-- The segments that `score_optimization_outcomes` scores, before it sorts the candidates and cuts them.
unfoldable pub score_segments : List DecisionRow → List FeedbackRow → Segments
unfolding add_decisions add_feedbacks
score_segments decisions feedback =
    let e = add_decisions decisions (record { segments = []; decision_segments = [] }) in
    add_feedbacks e.decision_segments feedback e.segments

-- How the candidate of a segment is written out: a rate, an amount, an average, and a rounded weight.
pub record Texts : Type 0 where
  pub rate : ℕ → ℕ → Option String
  pub money : ℤ → String
  pub average : ℤ → ℕ → String
  pub count : ℕ → ℕ

-- `outcome_prior_from_learning_candidate` on the candidate that `as_dict` makes of a segment.
unfoldable pub outcome_prior_of : Texts → SegmentKey → SegmentStats → OutcomePrior
outcome_prior_of texts key s =
    let unmeasured = s.measured_savings_weight == 0 in
    record {
      lever = if str_eq key.lever "" then "unknown" else key.lever;
      readiness_status = (readiness s).status;
      sample_count = texts.count s.sample_weight;
      measured_savings_count = texts.count s.measured_savings_weight;
      total_gross_savings_usd =
          if unmeasured then none else some (texts.money s.total_gross_savings);
      average_gross_savings_usd =
          if unmeasured
          then none
          else some (texts.average s.total_gross_savings s.measured_savings_weight);
      quality_pass_rate = texts.rate s.quality_passed_weight s.quality_measured_weight;
      feedback_acceptance_rate =
          texts.rate s.accepted_weight (s.accepted_weight + s.corrective_weight);
      reason_codes = (readiness s).reason_codes;
    }
