-- ===== src/Engine/CachePolicy.antt =====
-- backend/app/engine/cache_policy.py: which requests may be answered from a cache.
use varsten.Prelude.{String, Bool, true, false, List, [], ◌∷◌, ◌++◌, str_eq, if◌then◌else◌}
use varsten.Engine.Types.{RequestClassification, risky_or_unknown, CacheEligibilityDecision}

-- `if flag: blockers.append(name)` before the rest.
abbrev pub blocker : Bool → String → List String → List String
blocker true name rest = name ∷ rest
blocker false name rest = rest

-- `_cache_blockers`
unfoldable pub cache_blockers : RequestClassification → List String
cache_blockers c = blocker (risky_or_unknown c) "risky_or_unknown" (
    blocker c.personalized "personalized_request" (
      blocker c.freshness_sensitive "freshness_sensitive"
        (blocker c.has_tools "tools_present" (blocker c.has_multimodal "multimodal_content" []))))

-- `_semantic_only_blockers`
unfoldable pub semantic_only_blockers : RequestClassification → List String
semantic_only_blockers c = blocker c.wants_json "json_output" []

abbrev pub decide : String → List String → CacheEligibilityDecision
decide lever [] = record {
  lever = lever;
  allowed = true;
  reason_code = "cache_gate_shadow_allow";
  blockers = [];
}
decide lever (b ∷ bs) = record {
  lever = lever;
  allowed = false;
  reason_code = "cache_gate_shadow_reject";
  blockers = b ∷ bs;
}

-- `evaluate_cache_eligibility`. The blockers of the two lists are distinct names, so that the code's
-- removal of repetitions keeps them all.
unfoldable pub evaluate_cache_eligibility :
    String → RequestClassification → CacheEligibilityDecision
unfolding cache_blockers semantic_only_blockers
evaluate_cache_eligibility lever c = decide lever (
    if str_eq lever "semantic_cache"
    then cache_blockers c ++ semantic_only_blockers c
    else cache_blockers c)
