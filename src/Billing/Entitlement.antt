-- ===== src/Billing/Entitlement.antt =====
-- backend/app/auth/entitlements.py: what an organization may do. The count of the month's proxy
-- requests is an argument, since a query of the ledger gives it.
pub mod Gate
use varsten.Prelude.{
  ℕ, ◌+◌, ◌-◌, Bool, true, false, not, ◌&&◌, Option, none, some, ltb, leb, if◌then◌else◌,
}
use varsten.Billing.Lifecycle.{
  PlanTier, SubscriptionStatus, Organization, is_trialing, maybe_expire,
}

pub record Settings : Type 0 where
  pub free_monthly_request_limit : ℕ
  pub free_trial_days : ℕ

pub data LockReason : Type 0 where
  missing_organization : LockReason
  trial_expired : LockReason
  past_due : LockReason
  canceled : LockReason
  expired : LockReason
  monthly_request_limit_exceeded : LockReason
  free_plan : LockReason
  entitlement_lookup_failed : LockReason

pub record EntitlementState : Type 0 where
  pub plan_tier : PlanTier
  pub observe_only : Bool
  pub reason : Option LockReason
  pub monthly_requests : ℕ
  pub monthly_request_limit : ℕ
  pub requests_remaining : Option ℕ
  pub trial_ends_at : Option ℕ
  pub trial_expired : Bool

-- `_default_trial_end`
unfoldable pub default_trial_end : Settings → Organization → Option ℕ
default_trial_end cfg org =
    if not (is_trialing org.subscription_status)
    then org.trial_ends_at
    else elim org.trial_ends_at [
      | some end ↦ some end
      | none ↦ some (org.created_at + cfg.free_trial_days)
    ]

-- `_requests_remaining`, which is 0 where the limit is passed.
unfoldable pub remaining : ℕ → ℕ → ℕ
remaining monthly limit = limit - monthly

abbrev pub is_performance_tier : PlanTier → Bool
is_performance_tier PlanTier.free = false
is_performance_tier PlanTier.performance = true

-- `trial_expired` in `_entitlement_state`
unfoldable pub trial_over : Settings → ℕ → Organization → Bool
unfolding default_trial_end
trial_over cfg now org =
    is_trialing org.subscription_status
    && (elim (default_trial_end cfg org) [ none ↦ false | some end ↦ leb end now ])

-- `quota_exceeded`
unfoldable pub quota_exceeded : Settings → ℕ → Organization → Bool
quota_exceeded cfg monthly org =
    is_trialing org.subscription_status
    && ltb 0 cfg.free_monthly_request_limit
    && leb cfg.free_monthly_request_limit monthly

-- `observe_only` and `reason`, which each branch of the ladder sets.
abbrev pub Lock : Type 0
Lock = Bool × Option LockReason

-- The branches by the subscription status, before the last ones, `rest`.
abbrev pub status_lock : SubscriptionStatus → Lock → Lock
status_lock SubscriptionStatus.past_due rest = (true, some LockReason.past_due)
status_lock SubscriptionStatus.canceled rest = (true, some LockReason.canceled)
status_lock SubscriptionStatus.expired rest = (true, some LockReason.expired)
status_lock SubscriptionStatus.trialing rest = rest
status_lock SubscriptionStatus.active rest = rest

-- The ladder. `observe_only` is first whether the organization is not on Pro, which the last branch
-- tests and the case of no branch keeps.
unfoldable pub lock_of : Settings → ℕ → ℕ → Organization → Lock
unfolding trial_over quota_exceeded
lock_of cfg monthly now org =
    let observe_only = not (is_performance_tier org.plan_tier) in
    if trial_over cfg now org
    then (true, some LockReason.trial_expired)
    else status_lock org.subscription_status (
        if quota_exceeded cfg monthly org
        then (true, some LockReason.monthly_request_limit_exceeded)
        else if observe_only
        then (observe_only, some LockReason.free_plan)
        else (observe_only, none))

-- `_entitlement_state`
unfoldable pub entitlement_state : Settings → ℕ → ℕ → Option Organization → EntitlementState
unfolding remaining lock_of
entitlement_state cfg monthly now none = record {
  plan_tier = PlanTier.free;
  observe_only = true;
  reason = some LockReason.missing_organization;
  monthly_requests = monthly;
  monthly_request_limit = cfg.free_monthly_request_limit;
  requests_remaining = some (remaining monthly cfg.free_monthly_request_limit);
  trial_ends_at = none;
  trial_expired = false;
}
entitlement_state cfg monthly now (some org) = record {
  plan_tier = org.plan_tier;
  observe_only = (lock_of cfg monthly now org).0;
  reason = (lock_of cfg monthly now org).1;
  monthly_requests = monthly;
  monthly_request_limit = cfg.free_monthly_request_limit;
  requests_remaining =
      if ltb 0 cfg.free_monthly_request_limit
      then some (remaining monthly cfg.free_monthly_request_limit)
      else none;
  trial_ends_at = default_trial_end cfg org;
  trial_expired = trial_over cfg now org;
}

-- `_entitlement_state_for_org`, which corrects an elapsed trial first: the state, and the
-- organization as it is stored after.
unfoldable pub entitlement_state_for_org :
    Settings → ℕ → ℕ → Option Organization → EntitlementState × Option Organization
unfolding entitlement_state maybe_expire
entitlement_state_for_org cfg monthly now none = (entitlement_state cfg 0 now none, none)
entitlement_state_for_org cfg monthly now (some org) =
    let org' = (maybe_expire now org).1 in
    (entitlement_state cfg monthly now (some org'), some org')

-- The state that stands in for a failed lookup.
unfoldable pub lookup_failed : Settings → EntitlementState
lookup_failed cfg = record {
  plan_tier = PlanTier.free;
  observe_only = true;
  reason = some LockReason.entitlement_lookup_failed;
  monthly_requests = 0;
  monthly_request_limit = cfg.free_monthly_request_limit;
  requests_remaining = none;
  trial_ends_at = none;
  trial_expired = false;
}

-- `entitlement_state_async`: the cached state of the organization, if any, and what the database
-- gives (`none` is an error); the state and what the cache then holds.
unfoldable pub entitlement_state_async :
    Settings
    → ℕ
    → Option EntitlementState
    → Option (Option Organization × ℕ)
    → EntitlementState × Option EntitlementState
unfolding entitlement_state lookup_failed
entitlement_state_async cfg now (some cached) read = (cached, some cached)
entitlement_state_async cfg now none none = (lookup_failed cfg, none)
entitlement_state_async cfg now none (some (org, monthly)) =
    let state = entitlement_state cfg monthly now org in (state, some state)

-- `is_performance` and `require_performance`: whether the call goes through; otherwise it raises.
unfoldable pub is_performance : EntitlementState → Bool
is_performance s = is_performance_tier s.plan_tier && not s.observe_only
