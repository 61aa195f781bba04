-- ===== src/Apply/Records.antt =====
-- The rows that applying a recommendation reads and writes, with the columns that the code looks at:
-- backend/app/levers.py and backend/app/models/{recommendation,eval,governance,proxy_policy}.py.
-- Times are whole ticks, ids are texts, and savings are whole units of the smallest decimal.
use varsten.Prelude.{ℕ, String, Bool, true, false, ◌||◌, Option, none, some}
use varsten.Prelude.Int.{ℤ}

pub data Lever : Type 0 where
  smart_routing : Lever
  semantic_cache : Lever
  token_trim : Lever
  model_downshift : Lever
  batching : Lever
  prompt_compression : Lever

abbrev pub lever_eq : Lever → Lever → Bool
lever_eq Lever.smart_routing Lever.smart_routing = true
lever_eq Lever.semantic_cache Lever.semantic_cache = true
lever_eq Lever.token_trim Lever.token_trim = true
lever_eq Lever.model_downshift Lever.model_downshift = true
lever_eq Lever.batching Lever.batching = true
lever_eq Lever.prompt_compression Lever.prompt_compression = true
lever_eq _ _ = false

-- `lever in ROUTING_LEVERS`
unfoldable pub is_routing : Lever → Bool
is_routing Lever.model_downshift = true
is_routing Lever.smart_routing = true
is_routing Lever.semantic_cache = false
is_routing Lever.token_trim = false
is_routing Lever.batching = false
is_routing Lever.prompt_compression = false

-- `GATED_LEVERS` of the eval gate and `GOVERNED_LEVERS` of governance hold the same levers; a missing
-- lever is in neither.
unfoldable pub is_gated : Option Lever → Bool
unfolding is_routing
is_gated none = false
is_gated (some lever) = is_routing lever || lever_eq lever Lever.prompt_compression

pub data RecommendationStatus : Type 0 where
  is_open : RecommendationStatus
  applied : RecommendationStatus
  dismissed : RecommendationStatus
  rolled_back : RecommendationStatus

pub data MeasurementMethod : Type 0 where
  estimated : MeasurementMethod
  replay_measured : MeasurementMethod
  holdback_measured : MeasurementMethod
  direct_measured : MeasurementMethod
  other_method : MeasurementMethod

-- `route_key` is what `route_key_from_recommendation` gives, or the default route.
pub record Recommendation : Type 0 where
  pub id : String
  pub organization_id : String
  pub project_id : String
  pub lever : Option Lever
  pub related_model : Option String
  pub target_key : Option String
  pub route_key : String
  pub estimated_monthly_savings_usd : Option ℤ
  pub measurement_method : MeasurementMethod
  pub status : RecommendationStatus
  pub updated_at : ℕ
  pub resolved_at : Option ℕ

pub data RunStatus : Type 0 where
  pending : RunStatus
  running : RunStatus
  completed : RunStatus
  failed : RunStatus

pub data Verdict : Type 0 where
  safe : Verdict
  needs_human : Verdict
  unsafe : Verdict
  insufficient_data : Verdict

pub record EvalRun : Type 0 where
  pub id : String
  pub recommendation_id : Option String
  pub status : RunStatus
  pub verdict : Option Verdict
  pub incumbent_model : String
  pub candidate_model : String
  pub cost_delta_usd : Option ℤ
  pub created_at : ℕ

pub data ChangeStatus : Type 0 where
  proposed : ChangeStatus
  approved : ChangeStatus
  rejected : ChangeStatus
  active : ChangeStatus
  rolled_back : ChangeStatus

-- The evidence that is frozen onto a change request.
pub record Evidence : Type 0 where
  pub run : EvalRun
  pub estimated_monthly_savings_usd : Option ℤ
  pub measurement_method : MeasurementMethod

pub record ChangeRequest : Type 0 where
  pub recommendation_id : String
  pub eval_run_id : String
  pub lever : Option Lever
  pub incumbent_model : String
  pub candidate_model : String
  pub status : ChangeStatus
  pub evidence : Evidence
  pub decided_by_user_id : Option String
  pub decided_at : Option ℕ
  pub decision_rationale : Option String
  pub updated_at : Option ℕ

-- The parameters of an execution policy.
pub record PolicyParams : Type 0 where
  pub candidate_model : Option String
  pub has_predicate : Bool
  pub artifact_id : Option String

pub record ProxyPolicy : Type 0 where
  pub project_id : String
  pub lever : Lever
  pub target_key : String
  pub route_key : String
  pub params : PolicyParams
  pub rollout_percent : ℕ
  pub enabled : Bool
  pub source_recommendation_id : String
  pub activated_at : ℕ

-- An action row, by what it records.
pub record RecommendationAction : Type 0 where
  pub recommendation_id : String
  pub actor_user_id : Option String
  pub lever : Option Lever
  pub action_type : RecommendationStatus
  pub realized_savings_usd : Option ℕ
  pub occurred_at : ℕ

-- An audit event of a decision.
pub record AuditEvent : Type 0 where
  pub actor : String
  pub target_id : String
  pub before : ChangeStatus
  pub after : ChangeStatus

-- What has gone wrong, by the exception that is raised.
pub data ApplyError : Type 0 where
  not_found : ApplyError
  requires_performance : ApplyError
  lever_off : ApplyError
  eval_gate : ApplyError
  governance : ApplyError
  transform_conflict : ApplyError

pub data Result (A : Type 0) : Type 0 where
  ok : A → Result A
  err : ApplyError → Result A

infixl 5 ◌>>=◌ ◌>>◌
abbrev pub ◌>>=◌ : {A B : Type 0} → Result A → (A → Result B) → Result B
ok a >>= f = f a
err e >>= f = err e

abbrev pub ◌>>◌ : {B : Type 0} → Result (Unit {0}) → Result B → Result B
m >> k = m >>= λ _. k

abbrev pub ensure : Bool → ApplyError → Result (Unit {0})
ensure true e = ok tt
ensure false e = err e
