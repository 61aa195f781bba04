-- ===== src/Proxy/Canary.antt =====
-- backend/app/proxy/canary.py, the rollout stages of a policy, and `_maybe_promote_canary` of
-- backend/app/proxy/drift.py, which raises a policy to its next stage.
pub mod Ramp
use varsten.Prelude.{
  ℕ, ◌*◌, min, max, Bool, true, false, not, ◌||◌, Option, none, some, List, [], ◌∷◌, ltb, leb,
  if◌then◌else◌,
}

pub record Settings : Type 0 where
  pub canary_enabled : Bool
  pub canary_initial_percent : ℕ
  pub canary_stages : List ℕ

abbrev pub fully_live : ℕ
fully_live = 100

unfoldable pub initial_rollout_percent : Settings → ℕ
initial_rollout_percent cfg =
    if not cfg.canary_enabled then fully_live else max 1 (min fully_live cfg.canary_initial_percent)

-- `random.random()` is the fraction `draw / scale`.
unfoldable pub in_rollout : Option ℕ → ℕ → ℕ → Bool
in_rollout rollout_percent draw scale =
    let pct : ℕ = elim rollout_percent [ none ↦ fully_live | some p ↦ p ] in
    if leb fully_live pct then true else if leb pct 0 then false else ltb (draw * 100) (pct * scale)

-- The loop of `next_stage` over the configured stages.
unfoldable pub next_stage : List ℕ → ℕ → Option ℕ
next_stage [] current = none
next_stage (stage ∷ stages) current =
    if ltb current stage then some stage else next_stage stages current

-- An action row that a promotion writes: the two percents of its title.
pub record Promotion : Type 0 where
  pub previous : ℕ
  pub target : ℕ

-- `_maybe_promote_canary` on the policy's rollout percent, with whether the quality and the latency
-- check had enough signal: the new percent, and the action row.
unfoldable pub maybe_promote : Settings → Bool → Bool → ℕ → ℕ × Option Promotion
maybe_promote cfg quality latency percent =
    if not cfg.canary_enabled || leb fully_live percent
    then (percent, none)
    else if not (quality || latency)
    then (percent, none)
    else elim (next_stage cfg.canary_stages percent) [
      | none ↦ (percent, none)
      | some target ↦
          if leb target percent
          then (percent, none)
          else (target, some (record { previous = percent; target = target }))
    ]
