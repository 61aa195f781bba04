-- ===== src/Billing/Lifecycle/Sweep.antt =====
-- The sweep and the read path apply one rule.
use varsten.Prelude.{ℕ, String, ◌≡◌, refl, true, false, List, [], ◌∷◌, map, arith, if◌then◌else◌}
use varsten.Billing.Lifecycle.{
  Organization, maybe_expire, is_trial_expired, is_due, sweep_expired_trials,
}

is_due-is_trial_expired : (now : ℕ) (org : Organization) → is_due now org ≡ is_trial_expired now org
unfolding is_due is_trial_expired
is_due-is_trial_expired now org = ground arith

-- The ids of the organizations that a read at this time would change.
abbrev pub changed_ids : ℕ → List Organization → List String
changed_ids now [] = []
changed_ids now (org ∷ orgs) =
    if (maybe_expire now org).0 then org.id ∷ changed_ids now orgs else changed_ids now orgs

-- The sweep does to the whole table what a read at that time would do to each organization, and
-- reports exactly those that the read would change.
sweep-maybe_expire :
    (now : ℕ) (orgs : List Organization)
    → sweep_expired_trials now orgs
      ≡ (changed_ids now orgs, map (λ org. (maybe_expire now org).1) orgs)
unfolding sweep_expired_trials maybe_expire
sweep-maybe_expire now [] = refl
sweep-maybe_expire now (org ∷ orgs) =
    ground (arith, is_due-is_trial_expired now org, sweep-maybe_expire now orgs)

-- A read leaves no expired trial: a second read, at the same or any later time, changes nothing.
maybe_expire-twice :
    (now later : ℕ) (org : Organization)
    → (maybe_expire now org).0 ≡ true
    → maybe_expire later (maybe_expire now org).1 ≡ (false, (maybe_expire now org).1)
unfolding maybe_expire
maybe_expire-twice now later org h = ground arith
