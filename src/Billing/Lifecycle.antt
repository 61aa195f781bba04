-- ===== src/Billing/Lifecycle.antt =====
-- backend/app/billing_lifecycle.py: the transitions of an organization's plan. Times are whole
-- ticks, and `cached` says whether a plan tier of the organization stands in the process's cache,
-- which `_invalidate` drops.
pub mod Plan
pub mod Sweep
use varsten.Prelude.{
  ℕ, ◌+◌, String, Bool, true, false, not, ◌&&◌, Option, none, some, List, [], ◌∷◌, str_eq, leb,
  if◌then◌else◌,
}

pub data PlanTier : Type 0 where
  free : PlanTier
  performance : PlanTier

pub data SubscriptionStatus : Type 0 where
  trialing : SubscriptionStatus
  active : SubscriptionStatus
  past_due : SubscriptionStatus
  canceled : SubscriptionStatus
  expired : SubscriptionStatus

pub record Organization : Type 0 where
  pub id : String
  pub plan_tier : PlanTier
  pub subscription_status : SubscriptionStatus
  pub created_at : ℕ
  pub trial_started_at : Option ℕ
  pub trial_ends_at : Option ℕ
  pub plan_effective_at : Option ℕ
  pub stripe_subscription_id : Option String
  pub payment_method_ready_at : Option ℕ
  pub cached : Bool

abbrev pub is_trialing : SubscriptionStatus → Bool
is_trialing SubscriptionStatus.trialing = true
is_trialing SubscriptionStatus.active = false
is_trialing SubscriptionStatus.past_due = false
is_trialing SubscriptionStatus.canceled = false
is_trialing SubscriptionStatus.expired = false

abbrev pub is_some : Option ℕ → Bool
is_some none = false
is_some (some _) = true

-- `start_trial`; `days` is the length of `settings.free_trial_days`.
unfoldable pub start_trial : ℕ → ℕ → Organization → Organization
start_trial days now org = record org {
  plan_tier = PlanTier.performance;
  subscription_status = SubscriptionStatus.trialing;
  trial_started_at = some now;
  trial_ends_at = some (now + days);
  plan_effective_at = some now;
  payment_method_ready_at = none;
  cached = false;
}

-- `if stripe_subscription_id:`, which an empty text fails.
unfoldable pub link_subscription : Option String → Option String → Option String
link_subscription none old = old
link_subscription (some s) old = if str_eq s "" then old else some s

-- `activate_performance`
unfoldable pub activate_performance : Option String → ℕ → Organization → Organization
unfolding link_subscription
activate_performance stripe now org = record org {
  plan_tier = PlanTier.performance;
  subscription_status = SubscriptionStatus.active;
  stripe_subscription_id = link_subscription stripe org.stripe_subscription_id;
  plan_effective_at = some now;
  cached = false;
}

unfoldable pub has_payment_method_ready : Organization → Bool
has_payment_method_ready org = is_some org.payment_method_ready_at

unfoldable pub is_trial_elapsed : ℕ → Organization → Bool
is_trial_elapsed now org = elim org.trial_ends_at [ none ↦ false | some end ↦ leb end now ]

unfoldable pub is_trial_expired : ℕ → Organization → Bool
unfolding is_trial_elapsed
is_trial_expired now org =
    if not (is_trialing org.subscription_status) then false else is_trial_elapsed now org

-- The first write of `complete_payment_method_setup`.
unfoldable pub mark_payment_ready : ℕ → Organization → Organization
mark_payment_ready now org = record org {
  payment_method_ready_at = elim org.payment_method_ready_at [ none ↦ some now | some t ↦ some t ];
}

-- `complete_payment_method_setup`
unfoldable pub complete_payment_method_setup : ℕ → Organization → Organization
unfolding mark_payment_ready is_trial_elapsed activate_performance
complete_payment_method_setup now org =
    let ready = mark_payment_ready now org in
    if is_trialing ready.subscription_status && not (is_trial_elapsed now ready)
    then record ready { plan_tier = PlanTier.performance; cached = false }
    else activate_performance none now ready

-- `expire_trial`
unfoldable pub expire_trial : ℕ → Organization → Organization
expire_trial now org = record org {
  plan_tier = PlanTier.free;
  subscription_status = SubscriptionStatus.expired;
  plan_effective_at = some now;
  cached = false;
}

-- `mark_past_due`
unfoldable pub mark_past_due : ℕ → Organization → Organization
mark_past_due now org = record org {
  subscription_status = SubscriptionStatus.past_due;
  plan_effective_at = some now;
  cached = false;
}

-- `cancel_subscription`
unfoldable pub cancel_subscription : ℕ → Organization → Organization
cancel_subscription now org = record org {
  plan_tier = PlanTier.free;
  subscription_status = SubscriptionStatus.canceled;
  stripe_subscription_id = none;
  plan_effective_at = some now;
  cached = false;
}

-- The trial-end transition, which `maybe_expire` and the sweep share.
unfoldable pub end_trial : ℕ → Organization → Organization
unfolding has_payment_method_ready activate_performance expire_trial
end_trial now org =
    if has_payment_method_ready org then activate_performance none now org else expire_trial now org

-- `maybe_expire`: whether it changed the organization, and the organization.
unfoldable pub maybe_expire : ℕ → Organization → Bool × Organization
unfolding is_trial_expired end_trial
maybe_expire now org = if is_trial_expired now org then (true, end_trial now org) else (false, org)

-- The `where` of the sweep's query.
unfoldable pub is_due : ℕ → Organization → Bool
is_due now org = elim org.trial_ends_at [
  | none ↦ false
  | some end ↦ is_trialing org.subscription_status && leb end now
]

-- `sweep_expired_trials` over the table of organizations: the ids transitioned, and the table.
unfoldable pub sweep_expired_trials : ℕ → List Organization → List String × List Organization
unfolding is_due
sweep_expired_trials now [] = ([], [])
sweep_expired_trials now (org ∷ orgs) =
    let (ids, rest) = sweep_expired_trials now orgs in
    if is_due now org then (org.id ∷ ids, end_trial now org ∷ rest) else (ids, org ∷ rest)
