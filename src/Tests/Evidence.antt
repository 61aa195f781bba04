-- ===== src/Tests/Evidence.antt =====
-- Learned evidence at concrete inputs.
use varsten.Prelude.{◌*◌, ◌/◌, String, ◌≡◌, refl, ◌↔◌, true, Option, none, some, List, [], ◌∷◌}
use varsten.Prelude.Int.{pos}
use varsten.Engine.Planner.{is_ready}
use varsten.Engine.Outcomes.{
  one, SegmentKey, SegmentStats, new_stats, Texts, DecisionRow, FeedbackRow, score_segments, eq_key,
  outcome_prior_of,
}
use varsten.Engine.Outcomes.Ready.{IsProven, outcome_prior_of-IsProven}
use varsten.Engine.Outcomes.Partition.{sum_samples, count_decisions}
use varsten.Engine.Outcomes.Keys.{find_stats}
use varsten.Engine.Outcomes.Exact.{IsTally, score_segments-IsTally}

abbrev segment : SegmentKey
segment = record {
  route_key = "r";
  task_type = "t";
  risk_level = "low";
  provider_requested = "openai";
  model_requested = "gpt-4o";
  provider_chosen = "openai";
  model_chosen = "gpt-4o-mini";
  lever = "model_routing";
}

abbrev evidence : SegmentStats
evidence = record new_stats {
  sample_weight = 6 * one;
  measured_savings_weight = 5 * one;
  total_gross_savings = pos 7;
  feedback_weight = one;
  accepted_weight = one;
}

abbrev no_texts : Texts
no_texts = record {
  rate = λ n d. none;
  money = λ n. "m";
  average = λ n d. "a";
  count = λ n. n / one;
}

outcome_prior_of-IsProven_example :
    (is_ready (outcome_prior_of no_texts segment evidence) ≡ true) ↔ IsProven evidence
outcome_prior_of-IsProven_example = outcome_prior_of-IsProven no_texts segment evidence

evidence-ready : is_ready (outcome_prior_of no_texts segment evidence) ≡ true
unfolding outcome_prior_of is_ready varsten.Engine.Outcomes.readiness
evidence-ready = refl

abbrev decision : Option String → DecisionRow
decision id = record {
  optimization_applied = true;
  lever = none;
  cache_status = some "hit";
  decision_type = none;
  key = segment;
  decision_id = id;
  savings = some (pos 3);
  quality_ok = some true;
  weight = one;
}

abbrev decisions : List DecisionRow
decisions = decision (some "a") ∷ decision none ∷ decision (some "b") ∷ []

abbrev replies : List FeedbackRow
replies = record { decision_id = some "a"; outcome = "edited" } ∷ []

abbrev hit : SegmentKey
hit = record segment { lever = "exact_cache" }

score_segments-IsTally_example :
    ((eq_key hit segment ≡ true) ↔ (hit ≡ segment))
    × IsTally decisions replies hit (find_stats hit (score_segments decisions replies))
    × (sum_samples (score_segments decisions replies) ≡ count_decisions decisions)
score_segments-IsTally_example = score_segments-IsTally decisions replies hit segment

hit-corrected : (find_stats hit (score_segments decisions replies)).raw_corrective_count ≡ 1
unfolding score_segments
hit-corrected = refl

decisions-counted : sum_samples (score_segments decisions replies) ≡ 2
unfolding score_segments
decisions-counted = refl
