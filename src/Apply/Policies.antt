-- ===== src/Apply/Policies.antt =====
-- The execution policies that an applied recommendation activates: `activate_rule` and its
-- counterpart of backend/app/proxy/routing.py, the control-plane halves of backend/app/proxy/trim.py and
-- backend/app/proxy/compression.py, and the dispatch of backend/app/proxy/execution.py.
pub mod Rows
use varsten.Prelude.{
  ℕ, String, Bool, true, false, ◌&&◌, ◌||◌, Option, none, some, List, [], ◌∷◌, str_eq,
  if◌then◌else◌,
}
use varsten.Proxy.Canary.{Settings, initial_rollout_percent}
use varsten.Apply.Records.{
  Lever, lever_eq, is_routing, Recommendation, EvalRun, PolicyParams, ProxyPolicy, Result, ok, err,
  transform_conflict,
}

abbrev pub default_route : String
default_route = "default"

-- What a policy is found by.
pub record PolicyKey : Type 0 where
  pub project_id : String
  pub lever : Lever
  pub target_key : String
  pub route_key : String

unfoldable pub has_key : PolicyKey → ProxyPolicy → Bool
has_key k p =
    str_eq p.project_id k.project_id
    && lever_eq p.lever k.lever
    && str_eq p.target_key k.target_key
    && str_eq p.route_key k.route_key

-- `db.scalar(stmt)`
unfoldable pub find_policy : PolicyKey → List ProxyPolicy → Option ProxyPolicy
find_policy k [] = none
find_policy k (p ∷ ps) = if has_key k p then some p else find_policy k ps

abbrev pub no_params : PolicyParams
no_params = record { candidate_model = none; has_predicate = false; artifact_id = none }

-- The row that activation writes: `params` maps the old parameters to the new ones, and a policy that
-- is new, or was off, starts its rollout afresh.
unfoldable pub activated :
    Settings
    → PolicyKey
    → (PolicyParams → PolicyParams)
    → String
    → ℕ
    → Option ProxyPolicy
    → ProxyPolicy
activated cfg k params rec now none = record {
  project_id = k.project_id;
  lever = k.lever;
  target_key = k.target_key;
  route_key = k.route_key;
  params = params no_params;
  rollout_percent = initial_rollout_percent cfg;
  enabled = true;
  source_recommendation_id = rec;
  activated_at = now;
}
activated cfg k params rec now (some p) = record p {
  route_key = k.route_key;
  params = params p.params;
  rollout_percent = if p.enabled then p.rollout_percent else initial_rollout_percent cfg;
  enabled = true;
  source_recommendation_id = rec;
  activated_at = now;
}

-- The row found is overwritten, or a new one is added.
unfoldable pub write_policy :
    Settings
    → PolicyKey
    → (PolicyParams → PolicyParams)
    → String
    → ℕ
    → List ProxyPolicy
    → List ProxyPolicy
unfolding activated
write_policy cfg k params rec now [] = activated cfg k params rec now none ∷ []
write_policy cfg k params rec now (p ∷ ps) =
    if has_key k p
    then activated cfg k params rec now (some p) ∷ ps
    else p ∷ write_policy cfg k params rec now ps

-- `lever = recommendation.lever if recommendation.lever in ROUTING_LEVERS else …`
abbrev pub routing_lever : Option Lever → Lever
routing_lever none = Lever.model_downshift
routing_lever (some lever) = if is_routing lever then lever else Lever.model_downshift

abbrev pub is_empty : Option String → Bool
is_empty none = true
is_empty (some s) = str_eq s ""

abbrev pub text_of : Option String → String
text_of none = ""
text_of (some s) = s

-- The parameters that `activate_rule` writes; smart routing gets a default predicate.
abbrev pub rule_params : Lever → String → PolicyParams → PolicyParams
rule_params lever candidate old = record old {
  candidate_model = some candidate;
  has_predicate = old.has_predicate || lever_eq lever Lever.smart_routing;
}

-- `activate_rule`
unfoldable pub activate_rule :
    Settings → Recommendation → String → ℕ → List ProxyPolicy → List ProxyPolicy
activate_rule cfg rec candidate now ps =
    let incumbent = text_of rec.related_model in
    let lever = routing_lever rec.lever in
    if str_eq incumbent "" || str_eq candidate "" || str_eq incumbent candidate
    then ps
    else write_policy cfg
        (record {
          project_id = rec.project_id;
          lever = lever;
          target_key = incumbent;
          route_key = rec.route_key;
        })
        (rule_params lever candidate) rec.id now ps

-- `activate_trim_policy`
unfoldable pub activate_trim_policy :
    Settings → Recommendation → ℕ → List ProxyPolicy → List ProxyPolicy
activate_trim_policy cfg rec now ps =
    let model = text_of rec.related_model in
    if str_eq model ""
    then ps
    else write_policy cfg
        (record {
          project_id = rec.project_id;
          lever = Lever.token_trim;
          target_key = model;
          route_key = rec.route_key;
        })
        (λ old. old) rec.id now ps

-- `trim_stmt`: an enabled trim policy of the model, on this route or the default one; from the default
-- route, on any.
unfoldable pub is_live_trim : String → String → String → ProxyPolicy → Bool
is_live_trim project model route p =
    str_eq p.project_id project
    && lever_eq p.lever Lever.token_trim
    && str_eq p.target_key model
    && p.enabled
    && (str_eq route default_route || str_eq p.route_key route || str_eq p.route_key default_route)

unfoldable pub trim_live : String → String → String → List ProxyPolicy → Bool
trim_live project model route [] = false
trim_live project model route (p ∷ ps) =
    is_live_trim project model route p || trim_live project model route ps

-- `related_model or target_key`
abbrev pub compression_model : Recommendation → String
compression_model rec =
    if is_empty rec.related_model then text_of rec.target_key else text_of rec.related_model

-- `activate_compression_policy`; `artifact` is what `artifact_for_recommendation` finds.
unfoldable pub activate_compression_policy :
    Settings → Recommendation → Option String → ℕ → List ProxyPolicy → Result (List ProxyPolicy)
activate_compression_policy cfg rec none now ps = ok ps
activate_compression_policy cfg rec (some artifact) now ps =
    let model = compression_model rec in
    if str_eq model ""
    then ok ps
    else if trim_live rec.project_id model rec.route_key ps
    then err transform_conflict
    else ok (
        write_policy cfg
          (record {
            project_id = rec.project_id;
            lever = Lever.prompt_compression;
            target_key = model;
            route_key = rec.route_key;
          })
          (λ old. record old { artifact_id = some artifact }) rec.id now ps)

-- `activate_execution`
unfoldable pub activate_execution :
    Settings
    → Recommendation
    → Option EvalRun
    → Option String
    → ℕ
    → List ProxyPolicy
    → Result (List ProxyPolicy)
activate_execution cfg rec run artifact now ps = elim rec.lever [
  | none ↦ ok ps
  | some lever ↦
      if is_routing lever
      then (elim run [
        | none ↦ ok ps
        | some r ↦ ok (activate_rule cfg rec r.candidate_model now ps)
      ])
      else if lever_eq lever Lever.token_trim
      then ok (activate_trim_policy cfg rec now ps)
      else if lever_eq lever Lever.prompt_compression
      then activate_compression_policy cfg rec artifact now ps
      else ok ps
]

-- `update(ProxyPolicy).where(source_recommendation_id == …).values(enabled=False)`, for the policies
-- that the test selects.
unfoldable pub disable_where : (ProxyPolicy → Bool) → List ProxyPolicy → List ProxyPolicy
disable_where test [] = []
disable_where test (p ∷ ps) =
    (if test p then record p { enabled = false } else p) ∷ disable_where test ps

abbrev pub is_sourced : String → ProxyPolicy → Bool
is_sourced rec p = str_eq p.source_recommendation_id rec

unfoldable pub deactivate_rules : String → List ProxyPolicy → List ProxyPolicy
deactivate_rules rec ps = disable_where (is_sourced rec) ps

unfoldable pub deactivate_lever : Lever → String → List ProxyPolicy → List ProxyPolicy
deactivate_lever lever rec ps = disable_where (λ p. is_sourced rec p && lever_eq p.lever lever) ps

-- `deactivate_execution`
unfoldable pub deactivate_execution : String → List ProxyPolicy → List ProxyPolicy
unfolding deactivate_rules deactivate_lever
deactivate_execution rec ps =
    deactivate_lever Lever.prompt_compression rec
      (deactivate_lever Lever.token_trim rec (deactivate_rules rec ps))
