-- ===== src/Engine/Planner/Gap.antt =====
-- What the planner enforces on a risky request that has no routing policy.
use varsten.Prelude.{◌≡◌, refl, inl, inr, Bool, true, false, some, arith, Bool-cases}
use varsten.Prelude.Dict.{lookup}
use varsten.Engine.Types.{
  CandidateStatus, RequestClassification, OutcomePrior, PlannerInput, risky_or_unknown,
  CandidateOptimization, Mode,
}
use varsten.Engine.CachePolicy.{cache_blockers, evaluate_cache_eligibility}
use varsten.Engine.Classification.{TextMethods, classify_request}
use varsten.Engine.Candidates.{
  exact_cache_candidate, semantic_cache_candidate, model_routing_candidate, token_trim_candidate,
  prompt_compression_candidate,
}
use varsten.Engine.Planner.{
  is_enforceable, select_from, select_action, prior_for, is_ready, may_lift, with_outcome_prior,
  plan_candidates, facts_of, build_optimization_plan,
}
use varsten.Engine.Planner.Priors.{
  with_outcome_prior-lever, with_outcome_prior-shut, model_routing_candidate_open,
  model_routing_candidate_shut,
}
use varsten.Engine.Planner.Safety.{
  five, by_lever-five, semantic_cache_candidate_gated, model_routing_candidate_gated,
  token_trim_candidate_gated, prompt_compression_candidate_gated, exact_cache_candidate-lever,
}

exact_cache_candidate_risky :
    (i : PlannerInput) (c : RequestClassification)
    → i.optimize_enabled ≡ true
    → risky_or_unknown c ≡ true
    → let x = exact_cache_candidate i c in
      (is_enforceable x.status ≡ false) × (may_lift x.status x.reason_code ≡ false)
unfolding exact_cache_candidate evaluate_cache_eligibility cache_blockers may_lift
exact_cache_candidate_risky i c on risky = elim (Bool-cases i.exact_cache_enabled) [
  | inl e ↦ rw (on, risky, e) (refl, refl)
  | inr e ↦ rw (on, risky, e) (refl, refl)
]

semantic_cache_candidate_risky :
    (i : PlannerInput) (c : RequestClassification)
    → i.optimize_enabled ≡ true
    → risky_or_unknown c ≡ true
    → let x = semantic_cache_candidate i c in may_lift x.status x.reason_code ≡ false
unfolding semantic_cache_candidate evaluate_cache_eligibility cache_blockers may_lift
semantic_cache_candidate_risky i c on risky = elim (Bool-cases i.semantic_cache_enabled) [
  | inl e ↦ rw (on, risky, e) refl
  | inr e ↦ rw (on, risky, e) refl
]

select_action-routing :
    (enabled : Bool) (a b c d e : CandidateOptimization)
    → enabled ≡ true
    → a.lever ≡ "exact_cache"
    → b.lever ≡ "semantic_cache"
    → c.lever ≡ "model_routing"
    → d.lever ≡ "token_trim"
    → e.lever ≡ "prompt_compression"
    → is_enforceable a.status ≡ false
    → is_enforceable b.status ≡ false
    → is_enforceable c.status ≡ true
    → ((select_action (five a b c d e) enabled).action ≡ "model_routing")
      × ((select_action (five a b c d e) enabled).mode ≡ Mode.enforce)
unfolding select_action select_from lookup
select_action-routing false a b c d e on ha hb hc hd he na nb yc = absurd (ground arith)
select_action-routing true a b c d e on ha hb hc hd he na nb yc =
    rw (by_lever-five a b c d e ha hb hc hd he) (ground arith)

-- With optimization on, no routing policy, and a ready prior for routing, the plan of a risky or
-- unknown request enforces model routing; with a routing policy its routing candidate is rejected.
pub build_optimization_plan_gap :
    (py : TextMethods) (i : PlannerInput) (p : OutcomePrior)
    → i.optimize_enabled ≡ true
    → i.routing_policy_present ≡ false
    → prior_for "model_routing" i.outcome_priors ≡ some p
    → is_ready p ≡ true
    → risky_or_unknown (build_optimization_plan py i).classification ≡ true
    → let plan = build_optimization_plan py i in
      let with_policy = record i { routing_policy_present = true } in
      (plan.selected.action ≡ "model_routing")
      × (plan.selected.mode ≡ Mode.enforce)
      × ((with_outcome_prior
            (model_routing_candidate with_policy plan.classification)
            i.outcome_priors).status
          ≡ CandidateStatus.rejected)
unfolding build_optimization_plan plan_candidates
build_optimization_plan_gap py i p on missing found ready risky =
    let c = classify_request py (facts_of i) i.context in
    let priors = i.outcome_priors in
    let exact = exact_cache_candidate i c in
    let semantic = semantic_cache_candidate i c in
    let routing = model_routing_candidate i c in
    let (exact_off, exact_shut) = exact_cache_candidate_risky i c on risky in
    let semantic_shut = semantic_cache_candidate_risky i c on risky in
    let (semantic_lever, semantic_off) = semantic_cache_candidate_gated i c in
    let a_off : is_enforceable (with_outcome_prior exact priors).status ≡ false =
      rw (with_outcome_prior-shut exact priors exact_shut) exact_off in
    let b_off : is_enforceable (with_outcome_prior semantic priors).status ≡ false =
      rw (with_outcome_prior-shut semantic priors semantic_shut) semantic_off in
    let c_on : is_enforceable (with_outcome_prior routing priors).status ≡ true =
      rw (model_routing_candidate_open p i c on missing found ready) refl in
    let (action, mode) =
      select_action-routing i.optimize_enabled (with_outcome_prior exact priors)
        (with_outcome_prior semantic priors) (with_outcome_prior routing priors)
        (with_outcome_prior (token_trim_candidate i c) priors)
        (with_outcome_prior (prompt_compression_candidate i c) priors) on
        (with_outcome_prior-lever exact priors _ (exact_cache_candidate-lever i c))
        (with_outcome_prior-lever semantic priors _ semantic_lever)
        (with_outcome_prior-lever routing priors _ (model_routing_candidate_gated i c).0)
        (with_outcome_prior-lever _ priors _ (token_trim_candidate_gated i c).0)
        (with_outcome_prior-lever _ priors _ (prompt_compression_candidate_gated i c).0) a_off b_off
        c_on in
    (
      action,
      mode,
      model_routing_candidate_shut (record i { routing_policy_present = true }) c on refl risky,
    )
