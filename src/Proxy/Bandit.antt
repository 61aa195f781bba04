-- ===== src/Proxy/Bandit.antt =====
-- backend/app/engine/bandit.py: the choice of this request's routed model among the
-- candidates that cleared. Quality figures and draws are whole parts of `one`; savings are whole
-- units of the ledger's smallest decimal; the random draws are arguments.
pub mod Selection
use varsten.Prelude.{
  ℕ, zero, suc, String, Bool, true, false, ◌&&◌, Option, none, some, List, [], ◌∷◌, ltb, leb,
  if◌then◌else◌,
}
use varsten.Prelude.Int.{ℤ, ltb_ℤ}

pub record Settings : Type 0 where
  pub bandit_quality_floor : ℕ
  pub bandit_exploration_budget : ℕ
  pub bandit_min_samples : ℕ
  pub one : ℕ

pub record CandidateStats : Type 0 where
  pub model : String
  pub provider : String
  pub sample_count : ℕ
  pub quality_pass_rate : Option ℕ
  pub average_savings_usd : Option ℤ

pub data Reason : Type 0 where
  exploit : Reason
  explore : Reason
  fallback_primary : Reason

pub record BanditChoice : Type 0 where
  pub model : String
  pub provider : String
  pub reason : Reason
  pub sampled_quality : Option ℕ

-- `_quality_draw`; `beta` is what `random.betavariate` draws for this candidate.
unfoldable pub quality_draw : Settings → CandidateStats → ℕ → ℕ
quality_draw cfg stats beta = elim stats.quality_pass_rate [
  | none ↦ cfg.one
  | some _ ↦ if ltb stats.sample_count cfg.bandit_min_samples then cfg.one else beta
]

-- A candidate with its draw.
abbrev pub Drawn : Type 0
Drawn = CandidateStats × ℕ

-- `cleared`: the candidates, each with its beta draw, whose quality draw reaches the floor.
unfoldable pub cleared : Settings → List Drawn → List Drawn
unfolding quality_draw
cleared cfg [] = []
cleared cfg ((stats, beta) ∷ cs) =
    let draw = quality_draw cfg stats beta in
    if leb cfg.bandit_quality_floor draw then (stats, draw) ∷ cleared cfg cs else cleared cfg cs

-- `unproven`
unfoldable pub unproven : Settings → List Drawn → List Drawn
unproven cfg [] = []
unproven cfg (c ∷ cs) =
    if ltb c.0.sample_count cfg.bandit_min_samples then c ∷ unproven cfg cs else unproven cfg cs

abbrev has_savings : Option ℤ → Bool
has_savings none = false
has_savings (some _) = true

-- `proven`
unfoldable pub proven : Settings → List Drawn → List Drawn
proven cfg [] = []
proven cfg (c ∷ cs) =
    if leb cfg.bandit_min_samples c.0.sample_count && has_savings c.0.average_savings_usd
    then c ∷ proven cfg cs
    else proven cfg cs

-- `item[0].average_savings_usd or Decimal("0")`
abbrev pub savings : Drawn → ℤ
savings (stats, _) = elim stats.average_savings_usd [ none ↦ ℤ.pos 0 | some s ↦ s ]

-- `max(…, key=…)`: the first of the greatest.
unfoldable pub best_of : Drawn → List Drawn → Drawn
best_of best [] = best
best_of best (c ∷ cs) = best_of (if ltb_ℤ (savings best) (savings c) then c else best) cs

-- `random.choice` of a list that is not empty, by the index drawn.
unfoldable pub choice : Drawn → List Drawn → ℕ → Drawn
choice c [] i = c
choice c (d ∷ cs) zero = c
choice c (d ∷ cs) (suc i) = choice d cs i

abbrev pub choose : Reason → Drawn → BanditChoice
choose r (stats, draw) = record {
  model = stats.model;
  provider = stats.provider;
  reason = r;
  sampled_quality = some draw;
}

abbrev pub fallback : String → String → BanditChoice
fallback model provider = record {
  model = model;
  provider = provider;
  reason = Reason.fallback_primary;
  sampled_quality = none;
}

-- The last step of `select_candidate`.
unfoldable pub select_proven : String → String → List Drawn → BanditChoice
select_proven model provider [] = fallback model provider
select_proven model provider (c ∷ cs) = choose Reason.exploit (best_of c cs)

-- The budgeted exploration, before the exploiting step `rest`; `draw` is `random.random()` in parts
-- of `one`, and `i` the index that `random.choice` draws.
unfoldable pub select_unproven : Settings → ℕ → ℕ → List Drawn → BanditChoice → BanditChoice
select_unproven cfg draw i [] rest = rest
select_unproven cfg draw i (c ∷ cs) rest =
    if ltb draw cfg.bandit_exploration_budget then choose Reason.explore (choice c cs i) else rest

-- `select_candidate`. With no candidates, or none that cleared, both lists below are empty, and the
-- primary is the fallback, as in the code's early returns.
unfoldable pub select_candidate : Settings → String → String → List Drawn → ℕ → ℕ → BanditChoice
unfolding select_proven select_unproven
select_candidate cfg model provider candidates draw i =
    let good = cleared cfg candidates in
    select_unproven cfg draw i (unproven cfg good) (select_proven model provider (proven cfg good))
