-- ===== src/Proxy/Canary/Ramp.antt =====
-- A ramp only rises, keeps the requests that it has, and reaches the top of its stages.
use varsten.Prelude.{
  ℕ, zero, suc, ◌+◌, ◌*◌, ◌≤◌, ◌<◌, ◌≡◌, refl, ◌⊎◌, inl, inr, Bool, true, none, some, List, [], ◌∷◌,
  arith, ltb, if◌then◌else◌, Option-cases, length, All,
}
use native.Mathlib.Nat.{mul-le-mul, le_refl}
use varsten.Proxy.Canary.{Settings, fully_live, in_rollout, next_stage, maybe_promote}

-- The stages above a percent.
abbrev pub above : List ℕ → ℕ → ℕ
above [] p = 0
above (s ∷ ss) p = (if ltb p s then 1 else 0) + above ss p

above_mono : (ss : List ℕ) (p q : ℕ) → p ≤ q → above ss q ≤ above ss p
above_mono [] p q h = omega arith
above_mono (s ∷ ss) p q h = ground (arith, above_mono ss p q h)

next_stage-above :
    (ss : List ℕ) (p t : ℕ) → next_stage ss p ≡ some t → (p < t) × (above ss t < above ss p)
unfolding next_stage
next_stage-above [] p t h = cc
next_stage-above (s ∷ ss) p t h = ground (arith, next_stage-above ss p t, above_mono ss p t)

next_stage-none : (ss : List ℕ) (p : ℕ) → next_stage ss p ≡ none → All (λ s. s ≤ p) ss
unfolding next_stage
next_stage-none [] p h = tt
next_stage-none (s ∷ ss) p h = ground (arith, next_stage-none ss p)

maybe_promote-le :
    (cfg : Settings) (quality latency : Bool) (percent : ℕ)
    → let (percent', action) = maybe_promote cfg quality latency percent in
      (percent ≤ percent')
      × (((percent' ≡ percent) × (action ≡ none))
          ⊎ ((percent < percent')
              × (action ≡ some (record { previous = percent; target = percent' }))))
unfolding maybe_promote
maybe_promote-le cfg quality latency percent =
    elim (Option-cases (next_stage cfg.canary_stages percent)) [
      | inl e ↦ ground arith
      | inr (t, e) ↦ ground (arith, next_stage-above cfg.canary_stages percent t e)
    ]

in_rollout_mono :
    (p q draw scale : ℕ)
    → p ≤ q
    → in_rollout (some p) draw scale ≡ true
    → in_rollout (some q) draw scale ≡ true
unfolding in_rollout
in_rollout_mono p q draw scale h e =
    let wider : p * scale ≤ q * scale = mul-le-mul h (le_refl scale) in ground arith

-- A promotion never lowers the percent, a request that its draw put into the rollout stays in it, and
-- the percent changes exactly when an action row records the old and the new one.
maybe_promote-in_rollout :
    (cfg : Settings) (quality latency : Bool) (percent draw scale : ℕ)
    → let (percent', action) = maybe_promote cfg quality latency percent in
      (percent ≤ percent')
      × (in_rollout (some percent) draw scale ≡ true → in_rollout (some percent') draw scale ≡ true)
      × (((percent' ≡ percent) × (action ≡ none))
          ⊎ ((percent < percent')
              × (action ≡ some (record { previous = percent; target = percent' }))))
maybe_promote-in_rollout cfg quality latency percent draw scale =
    let (up, same) = maybe_promote-le cfg quality latency percent in
    (up, in_rollout_mono percent (maybe_promote cfg quality latency percent).0 draw scale up, same)

-- `n` promotions in a row, each with enough signal.
unfoldable pub promote_times : Settings → ℕ → ℕ → ℕ
promote_times cfg zero percent = percent
promote_times cfg (suc n) percent = promote_times cfg n (maybe_promote cfg true true percent).0

promote_times-live :
    (cfg : Settings) (n percent : ℕ)
    → fully_live ≤ percent
    → fully_live ≤ promote_times cfg n percent
unfolding promote_times
promote_times-live cfg zero percent h = h
promote_times-live cfg (suc n) percent h =
    promote_times-live cfg n (maybe_promote cfg true true percent).0
      (omega (arith, (maybe_promote-le cfg true true percent).0))

above-zero : (ss : List ℕ) (p : ℕ) → above ss p ≤ 0 → All (λ s. s ≤ p) ss
above-zero [] p h = tt
above-zero (s ∷ ss) p h = ground (arith, above-zero ss p)

All-above : (ss : List ℕ) (p : ℕ) → All (λ s. s ≤ p) ss → above ss p ≡ 0
All-above [] p h = refl
All-above (s ∷ ss) p h = ground (arith, All-above ss p)

above-le-length : (ss : List ℕ) (p : ℕ) → above ss p ≤ length ss
above-le-length [] p = omega arith
above-le-length (s ∷ ss) p = ground (arith, above-le-length ss p)

-- One promotion either has nowhere to go, is live already, or has fewer stages above it.
promote-above :
    (cfg : Settings) (percent : ℕ)
    → cfg.canary_enabled ≡ true
    → let p = (maybe_promote cfg true true percent).0 in
      (fully_live ≤ percent)
      ⊎ (above cfg.canary_stages p ≡ 0)
      ⊎ (above cfg.canary_stages p < above cfg.canary_stages percent)
unfolding maybe_promote
promote-above cfg percent on = elim (Option-cases (next_stage cfg.canary_stages percent)) [
  | inl e ↦
      ground
        (arith, All-above cfg.canary_stages percent (next_stage-none cfg.canary_stages percent e))
  | inr (t, e) ↦ ground (arith, next_stage-above cfg.canary_stages percent t e)
]

promote_times-top_from :
    (cfg : Settings) (n percent : ℕ)
    → cfg.canary_enabled ≡ true
    → above cfg.canary_stages percent ≤ n
    → let p = promote_times cfg n percent in (fully_live ≤ p) ⊎ All (λ s. s ≤ p) cfg.canary_stages
unfolding promote_times
promote_times-top_from cfg zero percent on h = inr (above-zero cfg.canary_stages percent h)
promote_times-top_from cfg (suc n) percent on h =
    let p = (maybe_promote cfg true true percent).0 in
    elim (promote-above cfg percent on) [
      | inl live ↦
          inl
            (promote_times-live cfg n p (omega (arith, (maybe_promote-le cfg true true percent).0)))
      | inr (inl done) ↦ promote_times-top_from cfg n p on (omega (arith, done))
      | inr (inr less) ↦ promote_times-top_from cfg n p on (omega (arith, less))
    ]

-- With canary mode on, as many promotions with enough signal as there are stages bring a policy
-- from any percent to full rollout, or to a percent that no configured stage is above.
pub promote_times-top :
    (cfg : Settings) (percent : ℕ)
    → cfg.canary_enabled ≡ true
    → let p = promote_times cfg (length cfg.canary_stages) percent in
      (fully_live ≤ p) ⊎ All (λ s. s ≤ p) cfg.canary_stages
promote_times-top cfg percent on =
    promote_times-top_from cfg (length cfg.canary_stages) percent on
      (above-le-length cfg.canary_stages percent)
