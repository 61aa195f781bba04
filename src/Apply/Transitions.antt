-- ===== src/Apply/Transitions.antt =====
-- backend/app/recommendation_transitions.py and backend/app/lever_controls.py: applying, dismissing and
-- rolling back a recommendation; and the automation of backend/app/engine/promotion.py that applies the
-- open ones. An exception ends a person's request before its commit, so that nothing of it is kept: the
-- error of `transition_recommendation` has no new state. Automation catches it and commits what was
-- written before: `auto_apply` has that state.
pub mod Gates
pub mod Auto
use varsten.Prelude.{
  ℕ, String, Bool, true, false, not, ◌&&◌, Option, none, some, List, ◌∷◌, str_eq, if◌then◌else◌,
}
use varsten.Proxy.Canary
use varsten.Apply.Records.{
  Lever, Recommendation, RecommendationStatus, RecommendationAction, EvalRun, ChangeRequest,
  ProxyPolicy, ApplyError, Result, ok, err, ◌>>=◌, ◌>>◌, ensure, not_found, requires_performance,
  lever_off,
}
use varsten.Apply.EvalGate.{assert_appliable, apply_measured_savings}
use varsten.Apply.Governance.{
  governance_enforced_for, assert_change_request_approved, mark_active, mark_rolled_back,
}
use varsten.Apply.Policies.{activate_execution, deactivate_execution}
use varsten.Apply.Savings.{SavingsAttribution, Recorded, record_applied_savings}

-- What a transition reads: the settings, the project, whether its organization is on Pro, the row of
-- the lever's configuration (none if there is none), the eval runs, the artifact of the
-- recommendation, the month, and the organization's percent.
pub record Context : Type 0 where
  pub canary : Canary.Settings
  pub governance_change_requests_enabled : Bool
  pub organization_governance : Option Bool
  pub project_id : String
  pub organization_id : String
  pub is_performance : Bool
  pub lever_row : Option Bool
  pub runs : List EvalRun
  pub artifact : Option String
  pub gain_share_percent : ℕ
  pub month_start : ℕ
  pub month_end : ℕ
  pub now : ℕ

-- What a transition writes, beside the recommendation.
pub record Tables : Type 0 where
  pub policies : List ProxyPolicy
  pub change_requests : List ChangeRequest
  pub actions : List RecommendationAction
  pub attributions : List SavingsAttribution
  pub lever_total : Option ℕ

-- `lever_enabled`: every lever is on by default.
unfoldable pub lever_enabled : Option Lever → Option Bool → Bool
lever_enabled none row = true
lever_enabled (some lever) row = elim row [ none ↦ true | some enabled ↦ enabled ]

-- What `_apply_recommendation` asks for before it writes, with the eval run that it goes by.
unfoldable pub cleared : Context → Bool → Recommendation → Tables → Result (Option EvalRun)
cleared ctx automated rec t = do
  ensure ctx.is_performance requires_performance
  ensure (lever_enabled rec.lever ctx.lever_row) lever_off
  gating ← assert_appliable ctx.runs rec automated
  assert_change_request_approved
      (governance_enforced_for ctx.governance_change_requests_enabled ctx.organization_governance)
      rec t.change_requests
  ok gating

-- `_apply_recommendation`
unfoldable pub apply_recommendation :
    Context → Bool → Recommendation → Tables → Result (Recommendation × Tables)
unfolding cleared
apply_recommendation ctx automated rec t = do
  gating ← cleared ctx automated rec t
  let rec' = apply_measured_savings rec gating
  policies ← activate_execution ctx.canary rec' gating ctx.artifact ctx.now t.policies
  ok (
    rec',
    record t {
      policies = policies;
      change_requests = mark_active rec.id ctx.now t.change_requests;
    },
  )

-- `project_id != project.id or organization_id != project.organization_id`
unfoldable pub belongs : Context → Recommendation → Bool
belongs ctx rec =
    str_eq rec.project_id ctx.project_id && str_eq rec.organization_id ctx.organization_id

-- The three writes of a new status.
abbrev pub resolved : RecommendationStatus → ℕ → Recommendation → Recommendation
resolved status now rec = record rec { status = status; updated_at = now; resolved_at = some now }

-- After `_apply_recommendation`: the status, and the savings of the application.
unfoldable pub finish_apply :
    Context → Option String → Recommendation × Tables → Recommendation × Tables
finish_apply ctx actor (rec, t) =
    let rec' = resolved RecommendationStatus.applied ctx.now rec in
    let r =
      record_applied_savings rec' ctx.gain_share_percent actor ctx.month_start ctx.month_end ctx.now
        t.attributions in
    (
      rec',
      record t {
        actions = r.action ∷ t.actions;
        attributions = r.attributions;
        lever_total = r.lever_total;
      },
    )

-- The branch for a dismissal or a rollback.
unfoldable pub withdraw :
    Context → String → RecommendationStatus → Recommendation → Tables → Recommendation × Tables
withdraw ctx actor status rec t = (
  resolved status ctx.now rec,
  record t {
    policies = deactivate_execution rec.id t.policies;
    change_requests = mark_rolled_back rec.id ctx.now t.change_requests;
    actions =
        record {
          recommendation_id = rec.id;
          actor_user_id = some actor;
          lever = rec.lever;
          action_type = status;
          realized_savings_usd = none;
          occurred_at = ctx.now;
        }
        ∷ t.actions;
  },
)

-- `transition_recommendation`
unfoldable pub transition_recommendation :
    Context
    → String
    → RecommendationStatus
    → Recommendation
    → Tables
    → Result (Recommendation × Tables)
unfolding apply_recommendation finish_apply withdraw belongs
transition_recommendation ctx actor RecommendationStatus.applied rec t = do
  ensure (belongs ctx rec) not_found
  done ← apply_recommendation ctx false rec t
  ok (finish_apply ctx (some actor) done)
transition_recommendation ctx actor RecommendationStatus.dismissed rec t = do
  ensure (belongs ctx rec) not_found
  ok (withdraw ctx actor RecommendationStatus.dismissed rec t)
transition_recommendation ctx actor RecommendationStatus.rolled_back rec t = do
  ensure (belongs ctx rec) not_found
  ok (withdraw ctx actor RecommendationStatus.rolled_back rec t)
transition_recommendation ctx actor RecommendationStatus.is_open rec t = do
  ensure (belongs ctx rec) not_found
  ok (
    record rec { status = RecommendationStatus.is_open; updated_at = ctx.now; resolved_at = none },
    t,
  )

abbrev pub is_open_status : RecommendationStatus → Bool
is_open_status RecommendationStatus.is_open = true
is_open_status RecommendationStatus.applied = false
is_open_status RecommendationStatus.dismissed = false
is_open_status RecommendationStatus.rolled_back = false

-- `apply_recommendation_automated`
unfoldable pub apply_recommendation_automated :
    Context → Recommendation → Tables → Result (Recommendation × Tables)
unfolding apply_recommendation finish_apply belongs
apply_recommendation_automated ctx rec t = do
  ensure (belongs ctx rec) not_found
  if not (is_open_status rec.status)
      then ok (rec, t)
      else apply_recommendation ctx true rec t >>= λ done. ok (finish_apply ctx none done)

-- The recommendation that is left where `apply_recommendation_automated` raises: its measured savings
-- are written before its policies are.
unfoldable pub left_by_failure : Context → Recommendation → Tables → Recommendation
unfolding cleared belongs
left_by_failure ctx rec t =
    if belongs ctx rec && is_open_status rec.status
    then (elim (cleared ctx true rec t) [
      | ok gating ↦ apply_measured_savings rec gating
      | err e ↦ rec
    ])
    else rec

-- The body of the loop of `auto_apply_ready_recommendations`: any exception is caught, the transaction
-- goes on, and `sweep_all_projects` commits it.
unfoldable pub auto_apply :
    Context → Recommendation → Tables → Recommendation × Tables × Option ApplyError
unfolding apply_recommendation_automated left_by_failure
auto_apply ctx rec t = elim (apply_recommendation_automated ctx rec t) [
  | ok done ↦ (done.0, done.1, none)
  | err e ↦ (left_by_failure ctx rec t, t, some e)
]
