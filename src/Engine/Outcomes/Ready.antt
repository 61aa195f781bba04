-- ===== src/Engine/Outcomes/Ready.antt =====
-- What evidence makes a learned prior ready for the planner.
use varsten.Prelude.{
  ℕ, ◌+◌, ◌*◌, ◌≤◌, ◌<◌, String, ◌≡◌, ◌↔◌, ◌⊎◌, Bool, true, false, not, ◌||◌, List, [], arith,
  str_eq, ltb, ◌==◌, if◌then◌else◌,
}
use varsten.Prelude.Int.{pos, ltb_ℤ}
use varsten.Engine.Planner.{is_ready}
use varsten.Engine.Outcomes.{
  one, SegmentKey, SegmentStats, rate_below, savings_proven, quality_risk_reasons, reason_if,
  is_empty, auto_ready, Readiness, readiness, Texts, outcome_prior_of,
}

-- At least five samples, some feedback, measured and positive savings on four fifths of the samples, no
-- corrective feedback, and a pass rate of 98 percent where quality was measured.
abbrev pub IsProven : SegmentStats → Type 0
IsProven s =
    (5 * one ≤ s.sample_weight)
    × (0 < s.feedback_weight)
    × (0 < s.measured_savings_weight)
    × (ltb_ℤ (pos 0) s.total_gross_savings ≡ true)
    × (8000 * s.sample_weight ≤ 10000 * s.measured_savings_weight)
    × (s.corrective_weight ≡ 0)
    × ((s.quality_measured_weight ≡ 0)
        ⊎ (9800 * s.quality_measured_weight ≤ 10000 * s.quality_passed_weight))

within_rate : (n d : ℕ) → rate_below n d 9800 ≡ false → (d ≡ 0) ⊎ (9800 * d ≤ 10000 * n)
within_rate n d h = ground arith

not_below : (n d : ℕ) → (d ≡ 0) ⊎ (9800 * d ≤ 10000 * n) → rate_below n d 9800 ≡ false
not_below n d h = ground arith

all_accepted : (a c : ℕ) → c ≡ 0 → rate_below a (a + c) 9500 ≡ false
all_accepted a c h = ground arith

savings_proven_iff :
    (s : SegmentStats)
    → 0 < s.sample_weight
    → (savings_proven s ≡ true) ↔ (
        (0 < s.measured_savings_weight)
        × (ltb_ℤ (pos 0) s.total_gross_savings ≡ true)
        × (8000 * s.sample_weight ≤ 10000 * s.measured_savings_weight))
unfolding savings_proven
savings_proven_iff s h = ground arith

no_reasons_iff :
    (a b c : Bool) (x y z : String)
    → (is_empty (reason_if a x (reason_if b y (reason_if c z []))) ≡ true)
      ↔ ((a ≡ false) × (b ≡ false) × (c ≡ false))
no_reasons_iff true b c x y z = ground arith
no_reasons_iff false true c x y z = ground arith
no_reasons_iff false false true x y z = ground arith
no_reasons_iff false false false x y z = ground arith

quality_risk_reasons_iff :
    (s : SegmentStats)
    → (is_empty (quality_risk_reasons s) ≡ true) ↔ (
        (s.corrective_weight ≡ 0)
        × ((s.quality_measured_weight ≡ 0)
            ⊎ (9800 * s.quality_measured_weight ≤ 10000 * s.quality_passed_weight)))
unfolding quality_risk_reasons
quality_risk_reasons_iff s =
    let empty =
      no_reasons_iff (rate_below s.quality_passed_weight s.quality_measured_weight 9800)
        (ltb 0 s.corrective_weight)
        (rate_below s.accepted_weight (s.accepted_weight + s.corrective_weight) 9500)
        "quality_pass_rate_low" "corrective_feedback_present" "acceptance_rate_low" in
    (
      λ h.
          let (low, corrective, acceptance) = empty.0 h in
          (ground arith, within_rate s.quality_passed_weight s.quality_measured_weight low),
      λ (none_corrective, quality). empty.1 (
        not_below s.quality_passed_weight s.quality_measured_weight quality,
        ground arith,
        all_accepted s.accepted_weight s.corrective_weight none_corrective,
      ),
    )

-- The status of a segment by the tests that the code makes in turn.
status_by :
    (few proven clean auto : Bool) (a b c d e : List String)
    → let r : Readiness =
        if few
        then record { status = "insufficient_data"; reason_codes = a }
        else if not proven
        then record { status = "savings_unproven"; reason_codes = b }
        else if not clean
        then record { status = "quality_risk"; reason_codes = c }
        else if auto
        then record { status = "auto_apply_candidate"; reason_codes = d }
        else record { status = "recommendable"; reason_codes = e } in
      ((str_eq r.status "recommendable" || str_eq r.status "auto_apply_candidate") ≡ true)
      ↔ ((few ≡ false) × (proven ≡ true) × (clean ≡ true))
status_by true proven clean auto a b c d e = ground arith
status_by false false clean auto a b c d e = ground arith
status_by false true false auto a b c d e = ground arith
status_by false true true false a b c d e = ground arith
status_by false true true true a b c d e = ground arith

few_iff :
    (s : SegmentStats)
    → ((ltb s.sample_weight (5 * one) || (s.feedback_weight == 0)) ≡ false)
      ↔ ((5 * one ≤ s.sample_weight) × (0 < s.feedback_weight))
few_iff s = ground arith

-- A learned prior is ready for the planner exactly when the evidence of its segment is: at least five
-- samples, some feedback, measured and positive savings on four fifths of the samples, no corrective
-- feedback, and a pass rate of 98 percent where quality was measured.
pub outcome_prior_of-IsProven :
    (texts : Texts) (key : SegmentKey) (s : SegmentStats)
    → (is_ready (outcome_prior_of texts key s) ≡ true) ↔ IsProven s
unfolding outcome_prior_of is_ready readiness
outcome_prior_of-IsProven texts key s =
    let few = few_iff s in
    let clean = quality_risk_reasons_iff s in
    let status =
      status_by (ltb s.sample_weight (5 * one) || (s.feedback_weight == 0)) (savings_proven s)
        (is_empty (quality_risk_reasons s)) (auto_ready s) _ _ _ _ _ in
    (
      λ h.
          let (f, p, c) = status.0 h in
          let (samples, feedback) = few.0 f in
          let (measured, positive, coverage) =
            (savings_proven_iff s (omega (arith, samples))).0 p in
          let (none_corrective, quality) = clean.0 c in
          (samples, feedback, measured, positive, coverage, none_corrective, quality),
      λ (samples, feedback, measured, positive, coverage, none_corrective, quality). status.1 (
        few.1 (samples, feedback),
        (savings_proven_iff s (omega (arith, samples))).1 (measured, positive, coverage),
        clean.1 (none_corrective, quality),
      ),
    )
