-- ===== src/Engine/Planner/Safety.antt =====
-- What the planner may enforce.
use varsten.Prelude.{◌≡◌, refl, Bool, true, false, none, List, [], ◌∷◌, arith}
use varsten.Prelude.Dict.{lookup, insert}
use varsten.Engine.Types.{
  RequestClassification, PlannerInput, risky_or_unknown, CandidateOptimization, Mode,
  selection_priority,
}
use varsten.Engine.CachePolicy.{cache_blockers, evaluate_cache_eligibility}
use varsten.Engine.Classification.{TextMethods, classify_request}
use varsten.Engine.Candidates.{
  exact_cache_candidate, semantic_cache_candidate, model_routing_candidate, token_trim_candidate,
  prompt_compression_candidate,
}
use varsten.Engine.Planner.{
  is_enforceable, by_lever, select_from, select_action, with_outcome_prior, plan_candidates,
  facts_of, build_optimization_plan,
}
use varsten.Engine.Planner.Priors.{
  HasReady, with_outcome_prior-lever, with_outcome_prior-same, still_gated,
}

-- Five candidates under the five levers.
module _ (a b c d e : CandidateOptimization) where
  abbrev pub five : List CandidateOptimization
  five = a ∷ b ∷ c ∷ d ∷ e ∷ []

  pub by_lever-five :
      a.lever ≡ "exact_cache"
      → b.lever ≡ "semantic_cache"
      → c.lever ≡ "model_routing"
      → d.lever ≡ "token_trim"
      → e.lever ≡ "prompt_compression"
      → by_lever five [] ≡ (
          ("exact_cache", a)
          ∷ ("semantic_cache", b)
          ∷ ("model_routing", c)
          ∷ ("token_trim", d)
          ∷ ("prompt_compression", e)
          ∷ [])
  unfolding by_lever insert
  by_lever-five ha hb hc hd he = rw (ha, hb, hc, hd, he) refl

  select_action-five :
      (enabled : Bool)
      → a.lever ≡ "exact_cache"
      → b.lever ≡ "semantic_cache"
      → c.lever ≡ "model_routing"
      → d.lever ≡ "token_trim"
      → e.lever ≡ "prompt_compression"
      → (select_action five enabled).mode ≡ Mode.enforce
      → is_enforceable b.status ≡ false
      → is_enforceable c.status ≡ false
      → is_enforceable d.status ≡ false
      → is_enforceable e.status ≡ false
      → ((select_action five enabled).action ≡ "exact_cache")
        × (is_enforceable a.status ≡ true)
        × (enabled ≡ true)
  unfolding select_action select_from lookup
  select_action-five false ha hb hc hd he m nb nc nd ne = absurd (ground arith)
  select_action-five true ha hb hc hd he m nb nc nd ne =
      let dict = by_lever-five ha hb hc hd he in
      let m' : (select_from (by_lever five []) none selection_priority).mode ≡ Mode.enforce = m in
      let m2 = rw dict at m' in rw dict (ground arith)

-- The four levers that need a gate or a policy are never enforceable by themselves.
pub semantic_cache_candidate_gated :
    (i : PlannerInput) (c : RequestClassification)
    → ((semantic_cache_candidate i c).lever ≡ "semantic_cache")
      × (is_enforceable (semantic_cache_candidate i c).status ≡ false)
unfolding semantic_cache_candidate
semantic_cache_candidate_gated i c = ground arith

pub model_routing_candidate_gated :
    (i : PlannerInput) (c : RequestClassification)
    → ((model_routing_candidate i c).lever ≡ "model_routing")
      × (is_enforceable (model_routing_candidate i c).status ≡ false)
unfolding model_routing_candidate
model_routing_candidate_gated i c = ground arith

pub token_trim_candidate_gated :
    (i : PlannerInput) (c : RequestClassification)
    → ((token_trim_candidate i c).lever ≡ "token_trim")
      × (is_enforceable (token_trim_candidate i c).status ≡ false)
unfolding token_trim_candidate
token_trim_candidate_gated i c = ground arith

pub prompt_compression_candidate_gated :
    (i : PlannerInput) (c : RequestClassification)
    → ((prompt_compression_candidate i c).lever ≡ "prompt_compression")
      × (is_enforceable (prompt_compression_candidate i c).status ≡ false)
unfolding prompt_compression_candidate
prompt_compression_candidate_gated i c = ground arith

pub exact_cache_candidate-lever :
    (i : PlannerInput) (c : RequestClassification)
    → (exact_cache_candidate i c).lever ≡ "exact_cache"
unfolding exact_cache_candidate
exact_cache_candidate-lever i c = ground arith

-- What the exact cache needs: nothing about the request blocks it.
abbrev pub IsCacheable : RequestClassification → Type 0
IsCacheable c =
    (risky_or_unknown c ≡ false)
    × (c.personalized ≡ false)
    × (c.freshness_sensitive ≡ false)
    × (c.has_tools ≡ false)
    × (c.has_multimodal ≡ false)

exact_cache_candidate-IsCacheable :
    (i : PlannerInput) (c : RequestClassification)
    → is_enforceable (exact_cache_candidate i c).status ≡ true
    → (i.exact_cache_enabled ≡ true) × IsCacheable c
unfolding exact_cache_candidate evaluate_cache_eligibility cache_blockers
exact_cache_candidate-IsCacheable i c h = ground arith

-- As long as no outcome prior is ready, the only action that a plan enforces is the exact cache: then
-- optimization and that cache are on, and the request is neither risky, unknown, personalized,
-- sensitive to freshness, with tools, nor multimodal.
pub build_optimization_plan-IsCacheable :
    (py : TextMethods) (i : PlannerInput)
    → (HasReady i.outcome_priors → ⊥)
    → (build_optimization_plan py i).selected.mode ≡ Mode.enforce
    → ((build_optimization_plan py i).selected.action ≡ "exact_cache")
      × (i.optimize_enabled ≡ true)
      × (i.exact_cache_enabled ≡ true)
      × IsCacheable (build_optimization_plan py i).classification
unfolding build_optimization_plan plan_candidates
build_optimization_plan-IsCacheable py i none_ready m =
    let c = classify_request py (facts_of i) i.context in
    let priors = i.outcome_priors in
    let semantic = semantic_cache_candidate_gated i c in
    let routing = model_routing_candidate_gated i c in
    let trim = token_trim_candidate_gated i c in
    let compression = prompt_compression_candidate_gated i c in
    let (action, open_gate, on) =
      select_action-five (with_outcome_prior (exact_cache_candidate i c) priors)
        (with_outcome_prior (semantic_cache_candidate i c) priors)
        (with_outcome_prior (model_routing_candidate i c) priors)
        (with_outcome_prior (token_trim_candidate i c) priors)
        (with_outcome_prior (prompt_compression_candidate i c) priors) i.optimize_enabled
        (with_outcome_prior-lever _ priors _ (exact_cache_candidate-lever i c))
        (with_outcome_prior-lever _ priors _ semantic.0)
        (with_outcome_prior-lever _ priors _ routing.0) (with_outcome_prior-lever _ priors _ trim.0)
        (with_outcome_prior-lever _ priors _ compression.0) m
        (still_gated _ priors none_ready semantic.1) (still_gated _ priors none_ready routing.1)
        (still_gated _ priors none_ready trim.1) (still_gated _ priors none_ready compression.1) in
    let exact : is_enforceable (exact_cache_candidate i c).status ≡ true =
      rw (with_outcome_prior-same (exact_cache_candidate i c) priors none_ready) at open_gate in
    let (enabled, cacheable) = exact_cache_candidate-IsCacheable i c exact in
    (action, on, enabled, cacheable)
