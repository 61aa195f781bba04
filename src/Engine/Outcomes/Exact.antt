-- ===== src/Engine/Outcomes/Exact.antt =====
-- What `score_optimization_outcomes` of backend/app/engine/outcomes.py counts in the segment of a key.
use varsten.Prelude.{
  ℕ, ◌+◌, String, ◌≡◌, refl, sym, ap, ◌∙◌, ◌↔◌, inl, inr, Bool, true, false, not, ◌&&◌, Option,
  none, some, List, [], arith, str_eq, eq_iff, if◌then◌else◌, Bool-cases,
}
use mathlib.Core.Path.{subst}
use varsten.Prelude.Int.{ℤ, pos, ◌+ℤ◌}
use varsten.Engine.Outcomes.{
  SegmentKey, SegmentStats, new_stats, weighted, add_decision, add_feedback, is_corrective,
  DecisionRow, FeedbackRow, eq_key, Evidence, add_decisions, score_segments,
}
use varsten.Engine.Outcomes.Partition.{sum_samples, count_decisions, score_segments-AllSound}
use varsten.Engine.Outcomes.Keys.{find_stats, eq_key_iff}
use varsten.Engine.Outcomes.Sums.{
  over_decisions, over_feedback, last_decision, decisions_sum, feedback_sum, links, no_decisions,
  no_feedback,
}

none_yet : Evidence
none_yet = record { segments = []; decision_segments = [] }

-- What the decisions of a segment and their feedback add to each of its counts and weights.
abbrev if_some : {A : Type 0} → Option A → ℕ → ℕ
if_some none w = 0
if_some (some x) w = w

abbrev if_passed : Option Bool → ℕ → ℕ
if_passed none w = 0
if_passed (some passed) w = if passed then w else 0

abbrev if_accepted : String → ℕ → ℕ
if_accepted outcome w = if str_eq outcome "accepted" then w else 0

abbrev if_corrective : String → ℕ → ℕ
if_corrective outcome w =
    if str_eq outcome "rejected"
    then w
    else if str_eq outcome "edited"
    then w
    else if str_eq outcome "regenerated"
    then w
    else if str_eq outcome "escalated"
    then w
    else if str_eq outcome "overridden"
    then w
    else 0

abbrev add_gross : Option ℤ → ℕ → ℤ → ℤ
add_gross none w total = total
add_gross (some savings) w total = total +ℤ weighted savings w

-- What one decision adds.
adds :
    (savings : Option ℤ) (quality : Option Bool) (w : ℕ) (s : SegmentStats)
    → let s' = add_decision savings quality w s in
      (s'.raw_sample_count ≡ s.raw_sample_count + 1)
      × (s'.sample_weight ≡ s.sample_weight + w)
      × (s'.raw_measured_savings_count ≡ s.raw_measured_savings_count + if_some savings 1)
      × (s'.measured_savings_weight ≡ s.measured_savings_weight + if_some savings w)
      × (s'.total_gross_savings ≡ add_gross savings w s.total_gross_savings)
      × (s'.raw_quality_measured_count ≡ s.raw_quality_measured_count + if_some quality 1)
      × (s'.quality_measured_weight ≡ s.quality_measured_weight + if_some quality w)
      × (s'.raw_quality_passed_count ≡ s.raw_quality_passed_count + if_passed quality 1)
      × (s'.quality_passed_weight ≡ s.quality_passed_weight + if_passed quality w)
unfolding add_decision
adds none none w s = ground arith
adds none (some true) w s = ground arith
adds none (some false) w s = ground arith
adds (some x) none w s = ground arith
adds (some x) (some true) w s = ground arith
adds (some x) (some false) w s = ground arith

-- A decision adds nothing to the counts of feedback.
replies_stay :
    (savings : Option ℤ) (quality : Option Bool) (w : ℕ) (s : SegmentStats)
    → let s' = add_decision savings quality w s in
      (s'.raw_feedback_count ≡ s.raw_feedback_count)
      × (s'.feedback_weight ≡ s.feedback_weight)
      × (s'.raw_accepted_count ≡ s.raw_accepted_count)
      × (s'.accepted_weight ≡ s.accepted_weight)
      × (s'.raw_corrective_count ≡ s.raw_corrective_count)
      × (s'.corrective_weight ≡ s.corrective_weight)
unfolding add_decision
replies_stay none none w s = ground arith
replies_stay none (some q) w s = ground arith
replies_stay (some x) none w s = ground arith
replies_stay (some x) (some q) w s = ground arith

adds_corrective :
    (outcome : String) (n w : ℕ)
    → n + (if not (str_eq outcome "accepted") && is_corrective outcome then w else 0)
      ≡ n + if_corrective outcome w
adds_corrective outcome n w = elim (Bool-cases (str_eq outcome "accepted")) [
  | inl t ↦
      subst
        (λ o.
          n + (if not (str_eq o "accepted") && is_corrective o then w else 0)
          ≡ n + if_corrective o w)
        (sym ((eq_iff outcome "accepted").0 t)) refl
  | inr f ↦ ground arith
]

module _ (decisions : List DecisionRow) (feedback : List FeedbackRow) (k : SegmentKey) where
  abbrev pub decided : (DecisionRow → ℕ) → ℕ
  decided amount = over_decisions k (λ total r. total + amount r) 0 decisions

  abbrev pub replied : (String → ℕ → ℕ) → ℕ
  replied amount =
      over_feedback (λ id. last_decision id none decisions) k (λ total o w. total + amount o w) 0
        feedback

  decision_field :
      {A : Type 0} (get : SegmentStats → A) (add : A → DecisionRow → A)
      → ((r : DecisionRow) (s : SegmentStats)
          → get (add_decision r.savings r.quality_ok r.weight s) ≡ add (get s) r)
      → ((outcome id : String) (w : ℕ) (s : SegmentStats)
          → get (add_feedback outcome id w s) ≡ get s)
      → get (find_stats k (score_segments decisions feedback))
        ≡ over_decisions k add (get new_stats) decisions
  unfolding score_segments none_yet
  decision_field get add d f =
      let e = add_decisions decisions none_yet in
      feedback_sum k get add (λ a o w. a) d f e.decision_segments
        (λ j. last_decision j none decisions) feedback e.segments (λ j. links j decisions none_yet)
      ∙ no_feedback _ k _ feedback
      ∙ decisions_sum k get add (λ a o w. a) d f decisions none_yet

  reply_field :
      (get : SegmentStats → ℕ) (amount : String → ℕ → ℕ)
      → ((r : DecisionRow) (s : SegmentStats)
          → get (add_decision r.savings r.quality_ok r.weight s) ≡ get s)
      → ((outcome id : String) (w : ℕ) (s : SegmentStats)
          → get (add_feedback outcome id w s) ≡ get s + amount outcome w)
      → get new_stats ≡ 0
      → get (find_stats k (score_segments decisions feedback)) ≡ replied amount
  unfolding score_segments none_yet
  reply_field get amount d f start =
      let e = add_decisions decisions none_yet in
      let link = λ (j : String). last_decision j none decisions in
      let add = λ (total : ℕ) (o : String) (w : ℕ). total + amount o w in
      feedback_sum k get (λ a r. a) add d f e.decision_segments link feedback e.segments
        (λ j. links j decisions none_yet)
      ∙ ap (λ a. over_feedback link k add a feedback)
          (decisions_sum k get (λ a r. a) add d f decisions none_yet
            ∙ no_decisions k (get new_stats) decisions
            ∙ start)

  -- What the segment of the key holds.
  abbrev pub IsTally : SegmentStats → Type 0
  IsTally s =
      (s.raw_sample_count ≡ decided (λ r. 1))
      × (s.sample_weight ≡ decided (λ r. r.weight))
      × (s.raw_measured_savings_count ≡ decided (λ r. if_some r.savings 1))
      × (s.measured_savings_weight ≡ decided (λ r. if_some r.savings r.weight))
      × (s.total_gross_savings
          ≡ over_decisions k (λ total r. add_gross r.savings r.weight total) (pos 0) decisions)
      × (s.raw_quality_measured_count ≡ decided (λ r. if_some r.quality_ok 1))
      × (s.quality_measured_weight ≡ decided (λ r. if_some r.quality_ok r.weight))
      × (s.raw_quality_passed_count ≡ decided (λ r. if_passed r.quality_ok 1))
      × (s.quality_passed_weight ≡ decided (λ r. if_passed r.quality_ok r.weight))
      × (s.raw_feedback_count ≡ replied (λ o w. 1))
      × (s.feedback_weight ≡ replied (λ o w. w))
      × (s.raw_accepted_count ≡ replied (λ o w. if_accepted o 1))
      × (s.accepted_weight ≡ replied if_accepted)
      × (s.raw_corrective_count ≡ replied (λ o w. if_corrective o 1))
      × (s.corrective_weight ≡ replied if_corrective)

-- One key is another's segment only if all eight of its fields are equal. The segment of a key holds,
-- exactly, the sums over the decisions with an applied optimization, an id and that key: their number
-- and weight, those with measured savings and the weighted total of these, those with a measured
-- quality and those that passed; and the sums over the feedback whose decision, the last one with its
-- id, is of that key: all, the accepted and the corrective, by number and by weight. All segments
-- together hold no other decision.
pub score_segments-IsTally :
    (decisions : List DecisionRow) (feedback : List FeedbackRow) (k other : SegmentKey)
    → ((eq_key k other ≡ true) ↔ (k ≡ other))
      × IsTally decisions feedback k (find_stats k (score_segments decisions feedback))
      × (sum_samples (score_segments decisions feedback) ≡ count_decisions decisions)
unfolding add_feedback add_decision
score_segments-IsTally decisions feedback k other = (
  eq_key_iff k other,
  (
    decision_field decisions feedback k (λ s. s.raw_sample_count) (λ t r. t + 1)
        (λ r s. (adds r.savings r.quality_ok r.weight s).0) (λ o i w s. refl),
    decision_field decisions feedback k (λ s. s.sample_weight) (λ t r. t + r.weight)
        (λ r s. (adds r.savings r.quality_ok r.weight s).1) (λ o i w s. refl),
    decision_field decisions feedback k (λ s. s.raw_measured_savings_count)
        (λ t r. t + if_some r.savings 1) (λ r s. (adds r.savings r.quality_ok r.weight s).2)
        (λ o i w s. refl),
    decision_field decisions feedback k (λ s. s.measured_savings_weight)
        (λ t r. t + if_some r.savings r.weight) (λ r s. (adds r.savings r.quality_ok r.weight s).3)
        (λ o i w s. refl),
    decision_field decisions feedback k (λ s. s.total_gross_savings)
        (λ t r. add_gross r.savings r.weight t) (λ r s. (adds r.savings r.quality_ok r.weight s).4)
        (λ o i w s. refl),
    decision_field decisions feedback k (λ s. s.raw_quality_measured_count)
        (λ t r. t + if_some r.quality_ok 1) (λ r s. (adds r.savings r.quality_ok r.weight s).5)
        (λ o i w s. refl),
    decision_field decisions feedback k (λ s. s.quality_measured_weight)
        (λ t r. t + if_some r.quality_ok r.weight)
        (λ r s. (adds r.savings r.quality_ok r.weight s).6) (λ o i w s. refl),
    decision_field decisions feedback k (λ s. s.raw_quality_passed_count)
        (λ t r. t + if_passed r.quality_ok 1) (λ r s. (adds r.savings r.quality_ok r.weight s).7)
        (λ o i w s. refl),
    decision_field decisions feedback k (λ s. s.quality_passed_weight)
        (λ t r. t + if_passed r.quality_ok r.weight)
        (λ r s. (adds r.savings r.quality_ok r.weight s).8) (λ o i w s. refl),
    reply_field decisions feedback k (λ s. s.raw_feedback_count) (λ o w. 1)
        (λ r s. (replies_stay r.savings r.quality_ok r.weight s).0) (λ o i w s. refl) refl,
    reply_field decisions feedback k (λ s. s.feedback_weight) (λ o w. w)
        (λ r s. (replies_stay r.savings r.quality_ok r.weight s).1) (λ o i w s. refl) refl,
    reply_field decisions feedback k (λ s. s.raw_accepted_count) (λ o w. if_accepted o 1)
        (λ r s. (replies_stay r.savings r.quality_ok r.weight s).2) (λ o i w s. refl) refl,
    reply_field decisions feedback k (λ s. s.accepted_weight) if_accepted
        (λ r s. (replies_stay r.savings r.quality_ok r.weight s).3) (λ o i w s. refl) refl,
    reply_field decisions feedback k (λ s. s.raw_corrective_count) (λ o w. if_corrective o 1)
        (λ r s. (replies_stay r.savings r.quality_ok r.weight s).4)
        (λ o i w s. adds_corrective o _ 1) refl,
    reply_field decisions feedback k (λ s. s.corrective_weight) if_corrective
        (λ r s. (replies_stay r.savings r.quality_ok r.weight s).5)
        (λ o i w s. adds_corrective o _ w) refl,
  ),
  (score_segments-AllSound decisions feedback).1,
)
