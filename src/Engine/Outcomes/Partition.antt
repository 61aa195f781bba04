-- ===== src/Engine/Outcomes/Partition.antt =====
-- How the rows of the ledger fall into segments.
use varsten.Prelude.{
  ℕ, ◌+◌, ◌≤◌, String, ◌≡◌, refl, ◌∙◌, inl, inr, Bool, true, false, not, ◌&&◌, Option, none, some,
  List, [], ◌∷◌, arith, str_eq, if◌then◌else◌, Bool-cases,
}
use varsten.Prelude.Dict.{Dict, lookup}
use varsten.Prelude.Int.{ℤ}
use varsten.Engine.Outcomes.{
  SegmentKey, SegmentStats, new_stats, add_decision, add_feedback, is_corrective, DecisionRow,
  FeedbackRow, segment_key, Segments, eq_key, update_segment, Evidence, counted, add_decisions,
  told, linked, add_feedbacks, score_segments,
}

-- No part of a segment's weight exceeds the whole.
pub record IsSound (s : SegmentStats) : Type 0 where
  pub savings : s.measured_savings_weight ≤ s.sample_weight
  pub measured : s.quality_measured_weight ≤ s.sample_weight
  pub passed : s.quality_passed_weight ≤ s.quality_measured_weight
  pub feedback : s.accepted_weight + s.corrective_weight ≤ s.feedback_weight
  pub raw_savings : s.raw_measured_savings_count ≤ s.raw_sample_count
  pub raw_passed : s.raw_quality_passed_count ≤ s.raw_quality_measured_count
  pub raw_feedback : s.raw_accepted_count + s.raw_corrective_count ≤ s.raw_feedback_count

add_decision-IsSound :
    (savings : Option ℤ) (quality : Option Bool) (w : ℕ) (s : SegmentStats)
    → IsSound s
    → IsSound (add_decision savings quality w s)
      × ((add_decision savings quality w s).raw_sample_count ≡ s.raw_sample_count + 1)
unfolding add_decision
add_decision-IsSound none none w s h = ground arith
add_decision-IsSound none (some q) w s h = ground arith
add_decision-IsSound (some x) none w s h = ground arith
add_decision-IsSound (some x) (some q) w s h = ground arith

one_side :
    (accepted corrective : Bool) (a c all w : ℕ)
    → a + c ≤ all
    → a + (if accepted then w else 0) + (c + (if not accepted && corrective then w else 0))
      ≤ all + w
one_side true corrective a c all w h = omega arith
one_side false true a c all w h = omega arith
one_side false false a c all w h = omega arith

add_feedback-IsSound :
    (outcome id : String) (w : ℕ) (s : SegmentStats)
    → IsSound s
    → IsSound (add_feedback outcome id w s)
      × ((add_feedback outcome id w s).raw_sample_count ≡ s.raw_sample_count + 0)
unfolding add_feedback
add_feedback-IsSound outcome id w s h = (
  record {
    savings = h.savings;
    measured = h.measured;
    passed = h.passed;
    feedback =
        one_side (str_eq outcome "accepted") (is_corrective outcome) s.accepted_weight
          s.corrective_weight s.feedback_weight w h.feedback;
    raw_savings = h.raw_savings;
    raw_passed = h.raw_passed;
    raw_feedback =
        one_side (str_eq outcome "accepted") (is_corrective outcome) s.raw_accepted_count
          s.raw_corrective_count s.raw_feedback_count 1 h.raw_feedback;
  },
  omega arith,
)

abbrev pub AllSound : Segments → Type 0
AllSound [] = Unit {0}
AllSound ((k, s) ∷ segments) = IsSound s × AllSound segments

-- The decisions of all segments.
abbrev pub sum_samples : Segments → ℕ
sum_samples [] = 0
sum_samples ((k, s) ∷ segments) = s.raw_sample_count + sum_samples segments

update_segment-AllSound :
    (key : SegmentKey) (f : SegmentStats → SegmentStats) (n : ℕ) (segments : Segments)
    → ((s : SegmentStats)
        → IsSound s
        → IsSound (f s) × ((f s).raw_sample_count ≡ s.raw_sample_count + n))
    → AllSound segments
    → AllSound (update_segment key f segments)
      × (sum_samples (update_segment key f segments) ≡ sum_samples segments + n)
unfolding update_segment
update_segment-AllSound key f n [] keeps h =
    let fresh : IsSound new_stats = omega arith in
    let first = keeps new_stats fresh in ((first.0, tt), omega (arith, first.1))
update_segment-AllSound key f n ((k, s) ∷ segments) keeps h = elim (Bool-cases (eq_key k key)) [
  | inl e ↦
      let first = keeps s h.0 in rw (e, update_segment) ((first.0, h.1), omega (arith, first.1))
  | inr e ↦
      let rest = update_segment-AllSound key f n segments keeps h.1 in
      rw (e, update_segment) ((h.0, rest.0), omega (arith, rest.1))
]

-- The decisions that count: those with an applied optimization, a lever and an id.
abbrev pub is_counted : Option SegmentKey → Option String → Bool
is_counted none id = false
is_counted (some key) none = false
is_counted (some key) (some id) = true

abbrev pub count_decisions : List DecisionRow → ℕ
count_decisions [] = 0
count_decisions (r ∷ rs) =
    (if r.optimization_applied && is_counted (segment_key r) r.decision_id then 1 else 0)
    + count_decisions rs

counted-AllSound :
    (key : Option SegmentKey) (id : Option String) (r : DecisionRow) (e : Evidence)
    → AllSound e.segments
    → AllSound (counted key id r e).segments
      × (sum_samples (counted key id r e).segments
          ≡ (if is_counted key id then 1 else 0) + sum_samples e.segments)
counted-AllSound none id r e h = (h, omega arith)
counted-AllSound (some key) none r e h = (h, omega arith)
counted-AllSound (some key) (some id) r e h =
    let out =
      update_segment-AllSound key (add_decision r.savings r.quality_ok r.weight) 1 e.segments
        (add_decision-IsSound r.savings r.quality_ok r.weight) h in
    (out.0, omega (arith, out.1))

row-AllSound :
    (applied : Bool) (key : Option SegmentKey) (id : Option String) (r : DecisionRow) (e : Evidence)
    → AllSound e.segments
    → let e' = if applied then counted key id r e else e in
      AllSound e'.segments
      × (sum_samples e'.segments
          ≡ (if applied && is_counted key id then 1 else 0) + sum_samples e.segments)
row-AllSound true key id r e h = counted-AllSound key id r e h
row-AllSound false key id r e h = (h, omega arith)

add_decisions-AllSound :
    (rs : List DecisionRow) (e : Evidence)
    → AllSound e.segments
    → AllSound (add_decisions rs e).segments
      × (sum_samples (add_decisions rs e).segments ≡ count_decisions rs + sum_samples e.segments)
unfolding add_decisions
add_decisions-AllSound [] e h = (h, omega arith)
add_decisions-AllSound (r ∷ rs) e h =
    let step = row-AllSound r.optimization_applied (segment_key r) r.decision_id r e h in
    let rest =
      add_decisions-AllSound rs
        (if r.optimization_applied then counted (segment_key r) r.decision_id r e else e) step.0 in
    (rest.0, omega (arith, step.1, rest.1))

told-AllSound :
    (found : Option (SegmentKey × ℕ)) (id outcome : String) (segments : Segments)
    → AllSound segments
    → AllSound (told found id outcome segments)
      × (sum_samples (told found id outcome segments) ≡ sum_samples segments)
told-AllSound none id outcome segments h = (h, refl)
told-AllSound (some (key, w)) id outcome segments h =
    let out =
      update_segment-AllSound key (add_feedback outcome id w) 0 segments
        (add_feedback-IsSound outcome id w) h in
    (out.0, omega (arith, out.1))

linked-AllSound :
    (decisions : Dict (SegmentKey × ℕ)) (id : Option String) (outcome : String)
    (segments : Segments)
    → AllSound segments
    → AllSound (linked decisions id outcome segments)
      × (sum_samples (linked decisions id outcome segments) ≡ sum_samples segments)
linked-AllSound decisions none outcome segments h = (h, refl)
linked-AllSound decisions (some id) outcome segments h =
    told-AllSound (lookup id decisions) id outcome segments h

add_feedbacks-AllSound :
    (decisions : Dict (SegmentKey × ℕ)) (rs : List FeedbackRow) (segments : Segments)
    → AllSound segments
    → AllSound (add_feedbacks decisions rs segments)
      × (sum_samples (add_feedbacks decisions rs segments) ≡ sum_samples segments)
unfolding add_feedbacks
add_feedbacks-AllSound decisions [] segments h = (h, refl)
add_feedbacks-AllSound decisions (r ∷ rs) segments h =
    let step = linked-AllSound decisions r.decision_id r.outcome segments h in
    let rest =
      add_feedbacks-AllSound decisions rs (linked decisions r.decision_id r.outcome segments)
        step.0 in
    (rest.0, rest.1 ∙ step.1)

-- The segments hold as many decisions in all as there are rows with an applied optimization, a lever
-- and an id, and in each of them what was measured, passed, accepted or corrected weighs at most as
-- much as the whole.
pub score_segments-AllSound :
    (decisions : List DecisionRow) (feedback : List FeedbackRow)
    → AllSound (score_segments decisions feedback)
      × (sum_samples (score_segments decisions feedback) ≡ count_decisions decisions)
unfolding score_segments
score_segments-AllSound decisions feedback =
    let none_yet : Evidence = record { segments = []; decision_segments = [] } in
    let first = add_decisions-AllSound decisions none_yet tt in
    let e = add_decisions decisions none_yet in
    let second = add_feedbacks-AllSound e.decision_segments feedback e.segments first.0 in
    (second.0, omega (arith, first.1, second.1))
