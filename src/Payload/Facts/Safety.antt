-- ===== src/Payload/Facts/Safety.antt =====
-- What a plan that is enforced says of the body of the request: the facts, the classification and the
-- planner, one after the other.
use mathlib.Core.Path.{subst}
use mathlib.Core.Option
use varsten.Prelude.{
  String, ◌≡◌, inl, inr, Bool, true, false, ◌||◌, Option, none, some, arith, if◌then◌else◌,
  Bool-cases,
}
use varsten.Payload.Json.{Value, Fields, get}
use varsten.Payload.Facts.{
  normalize_request_facts, request_facts, wants_json, has_tools, body_has_multimodal,
  has_multimodal, field_fragments, join_lines, freshness_terms, personalized_terms, high_risk_terms,
}
use varsten.Payload.Facts.Multimodal.{HasPart, has_multimodal-HasPart}
use varsten.Engine.Types.{
  PlannerInput, RequestFacts, TaskContext, OptimizationRisk, is_high_or_unknown, Mode,
  risky_or_unknown,
}
use varsten.Engine.Classification.{TextMethods, classify_request, has_high_risk_signal, any_in}
use varsten.Engine.Planner.{build_optimization_plan, facts_of}
use varsten.Engine.Planner.Priors.{HasReady}
use varsten.Engine.Planner.Safety.{IsCacheable, build_optimization_plan-IsCacheable}

-- The texts of the prompt, as the code searches them for terms.
abbrev pub prompt_of : TextMethods → Fields → String
prompt_of py body = py.lower (join_lines (field_fragments py body))

no_part : (py : TextMethods) (v : Value) → has_multimodal py v ≡ false → HasPart py v → ⊥
no_part py v h part =
    let e : has_multimodal py v ≡ true = (has_multimodal-HasPart py v).1 part in cc

high_not_low :
    {A : Type 0} (risk : OptimizationRisk) (a b u : Bool)
    → b ≡ true
    → (is_high_or_unknown (if a || b then OptimizationRisk.high else risk) || u) ≡ false
    → A
high_not_low risk a b u high low = absurd (ground arith)

four_false :
    (a b c d : Bool)
    → (a || b || c || d) ≡ false
    → (a ≡ false) × (b ≡ false) × (c ≡ false) × (d ≡ false)
four_false a b c d h = ground arith

IsCacheable-facts :
    (py : TextMethods) (facts : RequestFacts) (ctx : TaskContext)
    → IsCacheable (classify_request py facts ctx)
    → (facts.has_tools ≡ false)
      × (facts.has_multimodal ≡ false)
      × (facts.freshness_signal ≡ false)
      × (facts.personalized_signal ≡ false)
      × (facts.high_risk_signal ≡ false)
unfolding classify_request has_high_risk_signal risky_or_unknown
IsCacheable-facts py facts ctx (risk, personal, fresh, tools, multimodal) =
    elim (Bool-cases facts.high_risk_signal) [
      | inl high ↦ high_not_low _ _ _ _ high risk
      | inr low ↦ (tools, multimodal, fresh, ground arith, low)
    ]

no_parts :
    (py : TextMethods) (body : Fields)
    → body_has_multimodal py body ≡ false
    → (has_multimodal py (get "messages" body) ≡ false)
      × (has_multimodal py (get "input" body) ≡ false)
      × (has_multimodal py (get "content" body) ≡ false)
      × (has_multimodal py (get "contents" body) ≡ false)
unfolding body_has_multimodal
no_parts py body h = four_false _ _ _ _ h

some-map :
    {A B : Type 0} (f : A → B) (o : Option A) (b : B)
    → some b ≡ Option.map f o
    → (a : A) × (b ≡ f a)
some-map f none b h = absurd (ground arith)
some-map f (some a) b h = (a, ground arith)

of_wants :
    (py : TextMethods) (body : Fields) (facts : RequestFacts)
    → some facts ≡ normalize_request_facts py body
    → (json : Bool) × (facts ≡ request_facts py body json)
unfolding normalize_request_facts
of_wants py body facts h = some-map (request_facts py body) (wants_json body) facts h

-- As long as no outcome prior is ready, a plan that is enforced on the facts of a body is for one
-- without tools, without a multimodal part that is reached from its messages, input, content or
-- contents through lists and through the keys content, contents, messages, input and parts, and whose
-- prompt has none of the terms of freshness, of personal context or of high risk.
pub build_optimization_plan-body :
    (py : TextMethods) (i : PlannerInput) (body : Fields)
    → some (facts_of i) ≡ normalize_request_facts py body
    → (HasReady i.outcome_priors → ⊥)
    → (build_optimization_plan py i).selected.mode ≡ Mode.enforce
    → (has_tools body ≡ false)
      × (HasPart py (get "messages" body) → ⊥)
      × (HasPart py (get "input" body) → ⊥)
      × (HasPart py (get "content" body) → ⊥)
      × (HasPart py (get "contents" body) → ⊥)
      × (any_in (prompt_of py body) freshness_terms ≡ false)
      × (any_in (prompt_of py body) personalized_terms ≡ false)
      × (any_in (prompt_of py body) high_risk_terms ≡ false)
unfolding build_optimization_plan request_facts
build_optimization_plan-body py i body e none_ready m =
    let (json, same) = of_wants py body (facts_of i) e in
    let plan = build_optimization_plan-IsCacheable py i none_ready m in
    let facts =
      IsCacheable-facts py (request_facts py body json) i.context
        (subst (λ f. IsCacheable (classify_request py f i.context)) same plan.3) in
    let parts = no_parts py body facts.1 in
    (
      facts.0,
      no_part py _ parts.0,
      no_part py _ parts.1,
      no_part py _ parts.2,
      no_part py _ parts.3,
      facts.2,
      facts.3,
      facts.4,
    )
