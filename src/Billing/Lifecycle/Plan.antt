-- ===== src/Billing/Lifecycle/Plan.antt =====
-- The plan over every history of transitions.
use varsten.Prelude.{
  ℕ, ◌+◌, ◌≤◌, String, ◌≡◌, refl, ap, ◌⊎◌, inl, false, Option, none, some, List, [], ◌∷◌, ◌++◌,
  arith,
}
use varsten.Billing.Lifecycle.{
  PlanTier, SubscriptionStatus, Organization, start_trial, activate_performance,
  complete_payment_method_setup, expire_trial, mark_past_due, cancel_subscription, maybe_expire,
}

-- A call of the lifecycle.
pub data Transition : Type 0 where
  starts_trial : ℕ → Transition
  activates : Option String → Transition
  completes_payment : Transition
  expires : Transition
  falls_past_due : Transition
  cancels : Transition
  is_read : Transition

unfoldable pub apply : Transition → ℕ → Organization → Organization
unfolding start_trial activate_performance complete_payment_method_setup expire_trial mark_past_due
    cancel_subscription maybe_expire
apply (Transition.starts_trial days) now org = start_trial days now org
apply (Transition.activates stripe) now org = activate_performance stripe now org
apply Transition.completes_payment now org = complete_payment_method_setup now org
apply Transition.expires now org = expire_trial now org
apply Transition.falls_past_due now org = mark_past_due now org
apply Transition.cancels now org = cancel_subscription now org
apply Transition.is_read now org = (maybe_expire now org).1

-- Trialing and active organizations are on Pro, expired and canceled ones on Base, and a canceled
-- one has no Stripe subscription.
abbrev pub IsConsistent : Organization → SubscriptionStatus → Type 0
IsConsistent org SubscriptionStatus.trialing = org.plan_tier ≡ PlanTier.performance
IsConsistent org SubscriptionStatus.active = org.plan_tier ≡ PlanTier.performance
IsConsistent org SubscriptionStatus.past_due = Unit
IsConsistent org SubscriptionStatus.canceled =
    (org.plan_tier ≡ PlanTier.free) × (org.stripe_subscription_id ≡ none)
IsConsistent org SubscriptionStatus.expired = org.plan_tier ≡ PlanTier.free

apply-IsConsistent :
    (c : Transition) (now : ℕ) (org : Organization)
    → IsConsistent org org.subscription_status
    → let org' = apply c now org in IsConsistent org' org'.subscription_status
unfolding apply
apply-IsConsistent (Transition.starts_trial days) now org h = refl
apply-IsConsistent (Transition.activates stripe) now org h = refl
apply-IsConsistent Transition.completes_payment now org h = ground arith
apply-IsConsistent Transition.expires now org h = refl
apply-IsConsistent Transition.falls_past_due now org h = tt
apply-IsConsistent Transition.cancels now org h = (refl, refl)
apply-IsConsistent Transition.is_read now org h = ground arith

unfoldable pub run : List (Transition × ℕ) → Organization → Organization
run [] org = org
run ((c, now) ∷ cs) org = run cs (apply c now org)

run-append :
    (cs ds : List (Transition × ℕ)) (org : Organization) → run (cs ++ ds) org ≡ run ds (run cs org)
unfolding run
run-append [] ds org = refl
run-append ((c, now) ∷ cs) ds org = run-append cs ds (apply c now org)

run_stays :
    (cs : List (Transition × ℕ)) (org : Organization)
    → IsConsistent org org.subscription_status
    → let org' = run cs org in IsConsistent org' org'.subscription_status
unfolding run
run_stays [] org h = h
run_stays ((c, now) ∷ cs) org h = run_stays cs (apply c now org) (apply-IsConsistent c now org h)

-- From an organization whose plan and subscription agree, any history of the transitions of the
-- lifecycle, at any times, keeps them so: trialing and active organizations are on Pro, expired and
-- canceled ones on Base, canceled ones unlinked. A payment that then fails makes the organization past
-- due on the plan that it has.
pub run-IsConsistent :
    (cs : List (Transition × ℕ)) (org : Organization) (late : ℕ)
    → IsConsistent org org.subscription_status
    → let org' = run cs org in
      let due = run (cs ++ ((Transition.falls_past_due, late) ∷ [])) org in
      IsConsistent org' org'.subscription_status
      × (due.subscription_status ≡ SubscriptionStatus.past_due)
      × (due.plan_tier ≡ org'.plan_tier)
unfolding run apply
run-IsConsistent cs org late h =
    let last = run-append cs ((Transition.falls_past_due, late) ∷ []) org in
    (run_stays cs org h, ap (λ o. o.subscription_status) last, ap (λ o. o.plan_tier) last)

-- A transition leaves no stale plan tier in the cache: either it dropped the cached entry, or it
-- left the organization's plan, status and trial end as they were.
apply-cached :
    (c : Transition) (now : ℕ) (org : Organization)
    → let org' = apply c now org in
      (org'.cached ≡ false)
      ⊎ ((org'.plan_tier ≡ org.plan_tier)
          × (org'.subscription_status ≡ org.subscription_status)
          × (org'.trial_ends_at ≡ org.trial_ends_at))
unfolding apply
apply-cached (Transition.starts_trial days) now org = inl refl
apply-cached (Transition.activates stripe) now org = inl refl
apply-cached Transition.completes_payment now org = ground arith
apply-cached Transition.expires now org = inl refl
apply-cached Transition.falls_past_due now org = inl refl
apply-cached Transition.cancels now org = inl refl
apply-cached Transition.is_read now org = ground arith

-- A payment method that is set up is never lost to the end of the trial: whatever is then read, at
-- whatever later times, the organization stays on Pro, and it is active once a read comes at the
-- end of the trial or later.
complete_payment-keeps_plan :
    (days t p now : ℕ) (org : Organization)
    → let paid = complete_payment_method_setup p (start_trial days t org) in
      let read = (maybe_expire now paid).1 in
      (read.plan_tier ≡ PlanTier.performance)
      × (t + days ≤ now → read.subscription_status ≡ SubscriptionStatus.active)
      × (read.payment_method_ready_at ≡ some p)
unfolding complete_payment_method_setup start_trial maybe_expire
complete_payment-keeps_plan days t p now org = ground arith
