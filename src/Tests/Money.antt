-- ===== src/Tests/Money.antt =====
-- Fees, invoices, plans and entitlements at concrete inputs.
use varsten.Prelude.{
  ℕ, ◌+◌, ◌*◌, ◌≤◌, ◌≡◌, refl, ◌≢◌, ◌↔◌, ◌⊎◌, true, false, none, some, List, [], ◌∷◌, ◌++◌, arith,
}
use varsten.Prelude.Int.{pos, ◌≤ℤ◌}
use varsten.Billing.Fee.{compute_fee}
use varsten.Billing.Fee.Bounds.{compute_fee-capped}
use varsten.Billing.Invoice.{
  Invoice, InvoiceKey, InvoiceStatus, find_invoice, refreshed, generate_invoice,
}
use varsten.Billing.Invoice.Table.{is_locked, generate_invoice-find}
use varsten.Billing.Lifecycle.{PlanTier, SubscriptionStatus, Organization}
use varsten.Billing.Lifecycle.Plan
use varsten.Billing.Lifecycle.Plan.{IsConsistent, apply, run-IsConsistent}
use varsten.Billing.Entitlement
use varsten.Billing.Entitlement.{
  LockReason, EntitlementState, entitlement_state, entitlement_state_for_org,
  entitlement_state_async, is_performance, lookup_failed,
}
use varsten.Billing.Entitlement.Gate.{IsEntitled, is_performance_iff, no_trial_end-never_settles}

-- Savings of 1234.567 dollars at 20% with a floor of 30 dollars.
compute_fee-capped_example :
    let b = compute_fee (pos 123_456_700_000) (pos 2000) (pos 3000) in
    (b.fee_usd * 10_000 ≤ b.verified_savings_usd * 2500 + 5000)
    × (b.fee_usd + b.net_savings_usd ≡ b.verified_savings_usd)
    × (pos 123_456_700_000 ≤ℤ pos 0 → b.fee_usd ≡ 0)
compute_fee-capped_example = compute_fee-capped (pos 123_456_700_000) (pos 2000) (pos 3000)

abbrev august : InvoiceKey
august = record { organization_id = "o"; period_start = 0; period_end = 31 }

abbrev september : InvoiceKey
september = record { organization_id = "o"; period_start = 31; period_end = 61 }

abbrev paid_row : Invoice
paid_row = record (refreshed august (compute_fee (pos 5_000_000_000) (pos 2000) (pos 0))) {
  status = InvoiceStatus.paid;
}

august_ne_september : september ≢ august
august_ne_september e = ground arith

generate_invoice-find_example :
    let (i, rows') =
      generate_invoice august (pos 123_456_700_000) (pos 2000) (pos 3000) (paid_row ∷ []) in
    (find_invoice august rows' ≡ some i)
    × (find_invoice september rows' ≡ find_invoice september (paid_row ∷ []))
    × (((is_locked august (paid_row ∷ []) ≡ false)
          × (i ≡ refreshed august (compute_fee (pos 123_456_700_000) (pos 2000) (pos 3000))))
        ⊎ ((is_locked august (paid_row ∷ []) ≡ true)
            × (find_invoice august (paid_row ∷ []) ≡ some i)
            × (rows' ≡ paid_row ∷ [])))
generate_invoice-find_example =
    generate_invoice-find september august (pos 123_456_700_000) (pos 2000) (pos 3000)
      (paid_row ∷ []) august_ne_september

abbrev trial_org : Organization
trial_org = record {
  id = "o";
  plan_tier = PlanTier.performance;
  subscription_status = SubscriptionStatus.trialing;
  created_at = 0;
  trial_started_at = some 0;
  trial_ends_at = some 14;
  plan_effective_at = some 0;
  stripe_subscription_id = none;
  payment_method_ready_at = none;
  cached = true;
}

abbrev history : List (Plan.Transition × ℕ)
history =
    (Plan.completes_payment, 3)
    ∷ (Plan.is_read, 20)
    ∷ (Plan.falls_past_due, 50)
    ∷ (Plan.cancels, 60)
    ∷ []

run-IsConsistent_example :
    let org' = Plan.run history trial_org in
    let due = Plan.run (history ++ ((Plan.falls_past_due, 70) ∷ [])) trial_org in
    IsConsistent org' org'.subscription_status
    × (due.subscription_status ≡ SubscriptionStatus.past_due)
    × (due.plan_tier ≡ org'.plan_tier)
run-IsConsistent_example = run-IsConsistent history trial_org 70 refl

abbrev limits : Entitlement.Settings
limits = record { free_monthly_request_limit = 1000; free_trial_days = 14 }

is_performance_iff_example :
    let state = entitlement_state limits 200 5 (some trial_org) in
    ((is_performance state ≡ true) ↔ IsEntitled limits 200 5 trial_org SubscriptionStatus.trialing)
    × ((state.observe_only ≡ false) ↔ (state.reason ≡ none))
is_performance_iff_example = is_performance_iff limits 200 5 trial_org

abbrev endless_org : Organization
endless_org = record trial_org { trial_ends_at = none; payment_method_ready_at = some 3 }

no_trial_end-never_settles_example :
    let (state, stored) = entitlement_state_for_org limits 200 20 (some endless_org) in
    (state.reason ≡ some LockReason.trial_expired) × (stored ≡ some endless_org)
no_trial_end-never_settles_example =
    no_trial_end-never_settles limits 200 20 endless_org refl refl (omega arith)
