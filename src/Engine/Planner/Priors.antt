-- ===== src/Engine/Planner/Priors.antt =====
-- What an outcome prior makes of a candidate.
use varsten.Prelude.{
  String, ◌≡◌, refl, ◌∙◌, ◌≢◌, ◌⊎◌, inl, inr, true, false, Option, none, some, List, [], ◌∷◌, arith,
  Bool-cases, In,
}
use varsten.Engine.Types.{
  CandidateStatus, RequestClassification, OutcomePrior, PlannerInput, risky_or_unknown,
  CandidateOptimization,
}
use varsten.Engine.Candidates.{routing_blockers, model_routing_candidate}
use varsten.Engine.Planner.{
  is_enforceable, prior_for, is_ready, may_lift, lift_by, with_outcome_prior,
}

-- Some prior is ready.
abbrev pub HasReady : List OutcomePrior → Type 0
HasReady priors = (p : OutcomePrior) × In p priors × (is_ready p ≡ true)

prior_for-In :
    (lever : String) (ps : List OutcomePrior) (p : OutcomePrior)
    → prior_for lever ps ≡ some p
    → In p ps
unfolding prior_for
prior_for-In lever [] p e = cc
prior_for-In lever (q ∷ ps) p e = ground (arith, prior_for-In lever ps p)

lift_by-status :
    (prior : Option OutcomePrior) (c : CandidateOptimization)
    → ((lift_by prior c).status ≡ c.status)
      ⊎ (((lift_by prior c).status ≡ CandidateStatus.recommendable)
          × (may_lift c.status c.reason_code ≡ true)
          × ((p : OutcomePrior) × (prior ≡ some p) × (is_ready p ≡ true)))
unfolding lift_by
lift_by-status none c = inl refl
lift_by-status (some p) c = elim (Bool-cases (may_lift c.status c.reason_code)) [
  | inr closed ↦ inl (ground arith)
  | inl open_to ↦ elim (Bool-cases (is_ready p)) [
    | inr closed ↦ inl (ground arith)
    | inl ready ↦ inr (ground arith, open_to, (p, refl, ready))
  ]
]

may_lift_not_rejected :
    (s : CandidateStatus) (reason : String)
    → may_lift s reason ≡ true
    → s ≢ CandidateStatus.rejected
unfolding may_lift
may_lift_not_rejected s reason h e = ground arith

-- An outcome prior leaves a candidate's status as it is, or makes it recommendable; the latter only
-- where a prior is ready and the candidate was not rejected by a blocker.
pub with_outcome_prior-status :
    (c : CandidateOptimization) (priors : List OutcomePrior)
    → ((with_outcome_prior c priors).status ≡ c.status)
      ⊎ (((with_outcome_prior c priors).status ≡ CandidateStatus.recommendable)
          × (c.status ≢ CandidateStatus.rejected)
          × HasReady priors)
unfolding with_outcome_prior
with_outcome_prior-status c priors = elim (lift_by-status (prior_for c.lever priors) c) [
  | inl same ↦ inl same
  | inr (up, may, (p, found, ready)) ↦ inr (
    up,
    may_lift_not_rejected c.status c.reason_code may,
    (p, prior_for-In c.lever priors p found, ready),
  )
]

lift_by-lever :
    (prior : Option OutcomePrior) (c : CandidateOptimization) → (lift_by prior c).lever ≡ c.lever
unfolding lift_by
lift_by-lever none c = refl
lift_by-lever (some p) c = ground arith

pub with_outcome_prior-lever :
    (c : CandidateOptimization) (priors : List OutcomePrior) (lever : String)
    → c.lever ≡ lever
    → (with_outcome_prior c priors).lever ≡ lever
unfolding with_outcome_prior
with_outcome_prior-lever c priors lever e = lift_by-lever (prior_for c.lever priors) c ∙ e

pub with_outcome_prior-same :
    (c : CandidateOptimization) (priors : List OutcomePrior)
    → (HasReady priors → ⊥)
    → (with_outcome_prior c priors).status ≡ c.status
with_outcome_prior-same c priors none_ready = elim (with_outcome_prior-status c priors) [
  | inl same ↦ same
  | inr (_, _, ready) ↦ absurd (none_ready ready)
]

-- A candidate that no prior may lift keeps its status.
pub with_outcome_prior-shut :
    (c : CandidateOptimization) (priors : List OutcomePrior)
    → may_lift c.status c.reason_code ≡ false
    → (with_outcome_prior c priors).status ≡ c.status
unfolding with_outcome_prior
with_outcome_prior-shut c priors h = elim (lift_by-status (prior_for c.lever priors) c) [
  | inl same ↦ same
  | inr (_, may, _) ↦ absurd (ground arith)
]

pub still_gated :
    (c : CandidateOptimization) (priors : List OutcomePrior)
    → (HasReady priors → ⊥)
    → is_enforceable c.status ≡ false
    → is_enforceable (with_outcome_prior c priors).status ≡ false
still_gated c priors none_ready h = rw (with_outcome_prior-same c priors none_ready) h

may_lift_missing :
    (s : CandidateStatus) (reason : String)
    → s ≡ CandidateStatus.unavailable
    → reason ≡ "routing_policy_missing"
    → may_lift s reason ≡ true
unfolding may_lift
may_lift_missing s reason h r = rw (h, r) refl

lift_by-rejected :
    (prior : Option OutcomePrior) (c : CandidateOptimization)
    → c.status ≡ CandidateStatus.rejected
    → (lift_by prior c).status ≡ CandidateStatus.rejected
unfolding lift_by may_lift
lift_by-rejected none c h = h
lift_by-rejected (some p) c h = ground arith

lift_by-missing :
    (p : OutcomePrior) (c : CandidateOptimization)
    → c.status ≡ CandidateStatus.unavailable
    → c.reason_code ≡ "routing_policy_missing"
    → is_ready p ≡ true
    → (lift_by (some p) c).status ≡ CandidateStatus.recommendable
unfolding lift_by
lift_by-missing p c h reason ready =
    rw (may_lift_missing c.status c.reason_code h reason, ready) refl

with_outcome_prior-missing :
    (p : OutcomePrior) (c : CandidateOptimization) (priors : List OutcomePrior)
    → c.lever ≡ "model_routing"
    → c.status ≡ CandidateStatus.unavailable
    → c.reason_code ≡ "routing_policy_missing"
    → prior_for "model_routing" priors ≡ some p
    → is_ready p ≡ true
    → (with_outcome_prior c priors).status ≡ CandidateStatus.recommendable
unfolding with_outcome_prior
with_outcome_prior-missing p c priors lever h reason found ready =
    let found' : prior_for c.lever priors ≡ some p = rw lever found in
    rw found' (lift_by-missing p c h reason ready)

with_outcome_prior-rejected :
    (c : CandidateOptimization) (priors : List OutcomePrior)
    → c.status ≡ CandidateStatus.rejected
    → (with_outcome_prior c priors).status ≡ CandidateStatus.rejected
unfolding with_outcome_prior
with_outcome_prior-rejected c priors h = lift_by-rejected (prior_for c.lever priors) c h

model_routing_candidate_risky :
    (i : PlannerInput) (c : RequestClassification)
    → i.optimize_enabled ≡ true
    → i.routing_policy_present ≡ true
    → risky_or_unknown c ≡ true
    → (model_routing_candidate i c).status ≡ CandidateStatus.rejected
unfolding model_routing_candidate routing_blockers
model_routing_candidate_risky i c on present risky = ground arith

model_routing_candidate_missing :
    (i : PlannerInput) (c : RequestClassification)
    → i.optimize_enabled ≡ true
    → i.routing_policy_present ≡ false
    → ((model_routing_candidate i c).lever ≡ "model_routing")
      × ((model_routing_candidate i c).status ≡ CandidateStatus.unavailable)
      × ((model_routing_candidate i c).reason_code ≡ "routing_policy_missing")
unfolding model_routing_candidate
model_routing_candidate_missing i c on missing = ground arith

-- A ready prior makes the routing of any request recommendable where its policy is missing.
pub model_routing_candidate_open :
    (p : OutcomePrior) (i : PlannerInput) (c : RequestClassification)
    → i.optimize_enabled ≡ true
    → i.routing_policy_present ≡ false
    → prior_for "model_routing" i.outcome_priors ≡ some p
    → is_ready p ≡ true
    → (with_outcome_prior (model_routing_candidate i c) i.outcome_priors).status
      ≡ CandidateStatus.recommendable
model_routing_candidate_open p i c on missing found ready =
    let (lever, status, reason) = model_routing_candidate_missing i c on missing in
    with_outcome_prior-missing p (model_routing_candidate i c) i.outcome_priors lever status reason
      found ready

-- Where a routing policy is present, no prior makes the routing of a risky request recommendable.
pub model_routing_candidate_shut :
    (i : PlannerInput) (c : RequestClassification)
    → i.optimize_enabled ≡ true
    → i.routing_policy_present ≡ true
    → risky_or_unknown c ≡ true
    → (with_outcome_prior (model_routing_candidate i c) i.outcome_priors).status
      ≡ CandidateStatus.rejected
model_routing_candidate_shut i c on present risky =
    with_outcome_prior-rejected (model_routing_candidate i c) i.outcome_priors
      (model_routing_candidate_risky i c on present risky)
