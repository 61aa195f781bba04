-- ===== src/Billing/Entitlement/Gate.antt =====
-- Who may change production behaviour.
use varsten.Prelude.{
  ℕ, ◌+◌, ◌≤◌, ◌≡◌, refl, sym, ap, ◌∙◌, ◌≢◌, ◌↔◌, inl, inr, true, false, not, ◌&&◌, none, some,
  arith, Bool-cases,
}
use varsten.Billing.Lifecycle.{
  is_trial_expired, maybe_expire, PlanTier, SubscriptionStatus, Organization,
}
use varsten.Billing.Entitlement.{
  Settings, LockReason, trial_over, quota_exceeded, is_performance_tier, lock_of, entitlement_state,
  entitlement_state_for_org, entitlement_state_async, is_performance,
}

-- The organization is on Pro with an active subscription, or within a trial that is not over and
-- whose monthly quota is not used up.
abbrev pub IsEntitled : Settings → ℕ → ℕ → Organization → SubscriptionStatus → Type 0
IsEntitled cfg monthly now org SubscriptionStatus.active = org.plan_tier ≡ PlanTier.performance
IsEntitled cfg monthly now org SubscriptionStatus.trialing =
    (org.plan_tier ≡ PlanTier.performance)
    × (trial_over cfg now org ≡ false)
    × (quota_exceeded cfg monthly org ≡ false)
IsEntitled cfg monthly now org SubscriptionStatus.past_due = ⊥
IsEntitled cfg monthly now org SubscriptionStatus.canceled = ⊥
IsEntitled cfg monthly now org SubscriptionStatus.expired = ⊥

-- The ladder lets through exactly what is entitled, and gives a reason exactly where it locks.
lock_of_iff :
    (cfg : Settings) (monthly now : ℕ) (org : Organization) (s : SubscriptionStatus)
    → org.subscription_status ≡ s
    → let lock = lock_of cfg monthly now org in
      (((is_performance_tier org.plan_tier && not lock.0) ≡ true)
        ↔ IsEntitled cfg monthly now org s)
      × ((lock.0 ≡ false) ↔ (lock.1 ≡ none))
unfolding lock_of
lock_of_iff cfg monthly now org SubscriptionStatus.trialing e = ground arith
lock_of_iff cfg monthly now org SubscriptionStatus.active e = ground arith
lock_of_iff cfg monthly now org SubscriptionStatus.past_due e = ground arith
lock_of_iff cfg monthly now org SubscriptionStatus.canceled e = ground arith
lock_of_iff cfg monthly now org SubscriptionStatus.expired e = ground arith

-- The gate lets an organization act exactly when it is entitled, and a state that locks it always
-- gives a reason, one that does not gives none.
pub is_performance_iff :
    (cfg : Settings) (monthly now : ℕ) (org : Organization)
    → let state = entitlement_state cfg monthly now (some org) in
      ((is_performance state ≡ true) ↔ IsEntitled cfg monthly now org org.subscription_status)
      × ((state.observe_only ≡ false) ↔ (state.reason ≡ none))
unfolding is_performance entitlement_state
is_performance_iff cfg monthly now org =
    lock_of_iff cfg monthly now org org.subscription_status refl

expired_locks :
    (cfg : Settings) (monthly now : ℕ) (org : Organization)
    → is_trial_expired now org ≡ true
    → is_performance (entitlement_state cfg monthly now (some org)) ≡ true
    → ⊥
unfolding is_performance entitlement_state lock_of is_trial_expired
expired_locks cfg monthly now org over h = ground arith

maybe_expire-running :
    (now : ℕ) (org : Organization)
    → is_trial_expired now org ≡ false
    → (maybe_expire now org).1 ≡ org
unfolding maybe_expire
maybe_expire-running now org running = rw running refl

-- What the hot path reads afresh lets an organization act exactly when the control plane does and the
-- trial has not expired: until a control-plane read ends an expired trial, the hot path locks it.
entitlement_state_async_iff :
    (cfg : Settings) (monthly now : ℕ) (org : Organization)
    → let hot = (entitlement_state_async cfg now none (some (some org, monthly))).0 in
      let control = (entitlement_state_for_org cfg monthly now (some org)).0 in
      (is_performance hot ≡ true)
      ↔ ((is_performance control ≡ true) × (is_trial_expired now org ≡ false))
unfolding entitlement_state_async entitlement_state_for_org
entitlement_state_async_iff cfg monthly now org = elim (Bool-cases (is_trial_expired now org)) [
  | inr running ↦
      let same : entitlement_state cfg monthly now (some (maybe_expire now org).1)
          ≡ entitlement_state cfg monthly now (some org) =
        ap (λ o. entitlement_state cfg monthly now (some o))
          (maybe_expire-running now org running) in
      ((λ h. (ap is_performance same ∙ h, running)), (λ h. sym (ap is_performance same) ∙ h.0))
  | inl over ↦
      ((λ h. absurd (expired_locks cfg monthly now org over h)), λ h. absurd (ground arith))
]

-- Once the control plane has read an organization whose trial has an end, the gate of the stored
-- organization says nothing of an expired trial, at that time.
entitlement_state_for_org-settles :
    (cfg : Settings) (monthly now end : ℕ) (org : Organization)
    → org.trial_ends_at ≡ some end
    → let (state, stored) = entitlement_state_for_org cfg monthly now (some org) in
      (state.reason ≢ some LockReason.trial_expired)
      × (state ≡ entitlement_state cfg monthly now stored)
unfolding entitlement_state_for_org
entitlement_state_for_org-settles cfg monthly now end org e = ground arith

-- A trialing organization that has no stored trial end is locked as an expired trial from its
-- default end on, while no read ever ends that trial, even with a payment method set up.
pub no_trial_end-never_settles :
    (cfg : Settings) (monthly now : ℕ) (org : Organization)
    → org.subscription_status ≡ SubscriptionStatus.trialing
    → org.trial_ends_at ≡ none
    → org.created_at + cfg.free_trial_days ≤ now
    → let (state, stored) = entitlement_state_for_org cfg monthly now (some org) in
      (state.reason ≡ some LockReason.trial_expired) × (stored ≡ some org)
unfolding entitlement_state_for_org
no_trial_end-never_settles cfg monthly now org trial none_end late = ground arith
