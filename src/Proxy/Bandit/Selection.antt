-- ===== src/Proxy/Bandit/Selection.antt =====
-- What the bandit may choose.
use varsten.Prelude.{
  ℕ, zero, suc, ◌≤◌, ◌<◌, String, ◌≡◌, refl, sym, ◌⊎◌, inl, inr, some, List, [], ◌∷◌, arith, ltb,
  leb, if◌then◌else◌, Bool-cases, In,
}
use varsten.Prelude.Int.{ℤ, ltb_ℤ, ◌≤ℤ◌}
use mathlib.Core.Path.{subst}
use varsten.Proxy.Bandit.{
  Settings, CandidateStats, Reason, BanditChoice, quality_draw, Drawn, cleared, unproven, proven,
  savings, best_of, choice, choose, fallback, select_proven, select_unproven, select_candidate,
}

-- Some candidate has this model and provider, and a quality draw of `draw`, which reaches the floor.
abbrev pub Cleared : Settings → List Drawn → Drawn → Type 0
Cleared cfg cs (stats, draw) =
    (beta : ℕ) × In (stats, beta) cs
    × (draw ≡ quality_draw cfg stats beta)
    × (cfg.bandit_quality_floor ≤ draw)

cleared_here :
    (cfg : Settings) (stats : CandidateStats) (beta : ℕ) (cs : List Drawn) (c : Drawn)
    → cfg.bandit_quality_floor ≤ quality_draw cfg stats beta
    → (c ≡ (stats, quality_draw cfg stats beta)) ⊎ In c (cleared cfg cs)
    → (In c (cleared cfg cs) → Cleared cfg cs c)
    → Cleared cfg ((stats, beta) ∷ cs) c
cleared_here cfg stats beta cs (s, d) high (inl e) rest = (beta, inl cc, cc, ground arith)
cleared_here cfg stats beta cs (s, d) high (inr m) rest =
    let (b, m', r, f) = rest m in (b, inr m', r, f)

cleared-Cleared :
    (cfg : Settings) (cs : List Drawn) (c : Drawn) → In c (cleared cfg cs) → Cleared cfg cs c
unfolding cleared
cleared-Cleared cfg [] c h = absurd h
cleared-Cleared cfg ((stats, beta) ∷ cs) (s, d) h =
    elim (Bool-cases (leb cfg.bandit_quality_floor (quality_draw cfg stats beta))) [
      | inl e ↦
          let h' : ((s, d) ≡ (stats, quality_draw cfg stats beta)) ⊎ In (s, d) (cleared cfg cs) =
            rw e at h in
          cleared_here cfg stats beta cs (s, d) (ground arith) h' (cleared-Cleared cfg cs (s, d))
      | inr e ↦
          let h' : In (s, d) (cleared cfg cs) = rw e at h in
          let (b, m, r, f) = cleared-Cleared cfg cs (s, d) h' in (b, inr m, r, f)
    ]

unproven-In :
    (cfg : Settings) (cs : List Drawn) (c : Drawn)
    → In c (unproven cfg cs)
    → In c cs × (c.0.sample_count < cfg.bandit_min_samples)
unfolding unproven
unproven-In cfg [] c h = absurd h
unproven-In cfg (d ∷ cs) c h = ground (arith, unproven-In cfg cs c)

proven-In :
    (cfg : Settings) (cs : List Drawn) (c : Drawn)
    → In c (proven cfg cs)
    → In c cs × (cfg.bandit_min_samples ≤ c.0.sample_count)
unfolding proven
proven-In cfg [] c h = absurd h
proven-In cfg (d ∷ cs) c h = ground (arith, proven-In cfg cs c)

In-proven :
    (cfg : Settings) (cs : List Drawn) (c : Drawn) (s : ℤ)
    → In c cs
    → cfg.bandit_min_samples ≤ c.0.sample_count
    → c.0.average_savings_usd ≡ some s
    → In c (proven cfg cs)
unfolding proven
In-proven cfg [] c s h m e = absurd h
In-proven cfg (d ∷ cs) c s h m e = ground (arith, In-proven cfg cs c s)

best_of-In : (c : Drawn) (cs : List Drawn) → In (best_of c cs) (c ∷ cs)
unfolding best_of
best_of-In c [] = inl refl
best_of-In c (d ∷ cs) =
    ground (arith, best_of-In (if ltb_ℤ (savings c) (savings d) then d else c) cs)

choice-In : (c : Drawn) (cs : List Drawn) (i : ℕ) → In (choice c cs i) (c ∷ cs)
unfolding choice
choice-In c [] i = inl refl
choice-In c (d ∷ cs) zero = inl refl
choice-In c (d ∷ cs) (suc i) = inr (choice-In d cs i)

best_of-first : (c : Drawn) (cs : List Drawn) → savings c ≤ℤ savings (best_of c cs)
unfolding best_of
best_of-first c [] = omega arith
best_of-first c (d ∷ cs) =
    ground (arith, best_of-first (if ltb_ℤ (savings c) (savings d) then d else c) cs)

best_of-most :
    (c : Drawn) (cs : List Drawn) (d : Drawn) → In d (c ∷ cs) → savings d ≤ℤ savings (best_of c cs)
unfolding best_of
best_of-most c [] d (inl e) = rw e (omega arith)
best_of-most c [] d (inr h) = absurd h
best_of-most c (x ∷ cs) d (inl e) =
    rw e (ground (arith, best_of-first (if ltb_ℤ (savings c) (savings x) then x else c) cs))
best_of-most c (x ∷ cs) d (inr (inl e)) =
    rw e (ground (arith, best_of-first (if ltb_ℤ (savings c) (savings x) then x else c) cs))
best_of-most c (x ∷ cs) d (inr (inr h)) =
    best_of-most (if ltb_ℤ (savings c) (savings x) then x else c) cs d (inr h)

-- What a choice may be: a fallback to the primary, or a candidate that cleared the quality floor
-- with its draw; it was explored only if it lacks samples and the draw was within the budget, and
-- exploited only if it has them, as no other cleared candidate with the samples saves more.
abbrev pub IsAllowed : Settings → String → String → List Drawn → ℕ → BanditChoice → Type 0
IsAllowed cfg model provider cs draw chosen =
    (chosen ≡ fallback model provider)
    ⊎ ((c : Drawn) × (chosen ≡ choose Reason.explore c)
        × Cleared cfg cs c
        × (c.0.sample_count < cfg.bandit_min_samples)
        × (draw < cfg.bandit_exploration_budget))
    ⊎ ((c : Drawn) × (chosen ≡ choose Reason.exploit c)
        × Cleared cfg cs c
        × (cfg.bandit_min_samples ≤ c.0.sample_count)
        × ((d : Drawn) (s : ℤ)
            → In d (cleared cfg cs)
            → cfg.bandit_min_samples ≤ d.0.sample_count
            → d.0.average_savings_usd ≡ some s
            → s ≤ℤ savings c))

select_proven-IsAllowed :
    (cfg : Settings) (model provider : String) (cs ps : List Drawn) (draw : ℕ)
    → ps ≡ proven cfg (cleared cfg cs)
    → IsAllowed cfg model provider cs draw (select_proven model provider ps)
unfolding select_proven
select_proven-IsAllowed cfg model provider cs [] draw e = inl refl
select_proven-IsAllowed cfg model provider cs (p ∷ ps) draw e =
    let best = best_of p ps in
    let found : In best (proven cfg (cleared cfg cs)) =
      subst (λ l. In best l) e (best_of-In p ps) in
    let (good, enough) = proven-In cfg (cleared cfg cs) best found in
    inr (
      inr (
        best,
        refl,
        cleared-Cleared cfg cs best good,
        enough,
        λ d s m samples saved.
            let there : In d (p ∷ ps) =
              subst (λ l. In d l) (sym e) (In-proven cfg (cleared cfg cs) d s m samples saved) in
            savings_at d s saved (best_of-most p ps d there),
      ))
  where
    savings_at :
        (d : Drawn) (s : ℤ)
        → d.0.average_savings_usd ≡ some s
        → savings d ≤ℤ savings (best_of p ps)
        → s ≤ℤ savings (best_of p ps)
    savings_at d s saved h = rw saved at h

select_unproven-IsAllowed :
    (cfg : Settings) (model provider : String) (cs us : List Drawn) (draw i : ℕ)
    (rest : BanditChoice)
    → us ≡ unproven cfg (cleared cfg cs)
    → IsAllowed cfg model provider cs draw rest
    → IsAllowed cfg model provider cs draw (select_unproven cfg draw i us rest)
unfolding select_unproven
select_unproven-IsAllowed cfg model provider cs [] draw i rest e ok = ok
select_unproven-IsAllowed cfg model provider cs (u ∷ us) draw i rest e ok =
    let c = choice u us i in
    let found : In c (unproven cfg (cleared cfg cs)) = subst (λ l. In c l) e (choice-In u us i) in
    let (good, young) = unproven-In cfg (cleared cfg cs) c found in
    elim (Bool-cases (ltb draw cfg.bandit_exploration_budget)) [
      | inl within ↦
          rw within (inr (inl (c, refl, cleared-Cleared cfg cs c good, young, ground arith)))
      | inr over ↦ rw over ok
    ]

-- Whatever is drawn, the bandit never leaves the policy's own candidates: it falls back to the
-- primary, or chooses a candidate whose quality draw reaches the floor, exploring one with too few
-- samples only within the budget, and exploiting only the greatest measured savings.
pub select_candidate-IsAllowed :
    (cfg : Settings) (model provider : String) (cs : List Drawn) (draw i : ℕ)
    → IsAllowed cfg model provider cs draw (select_candidate cfg model provider cs draw i)
unfolding select_candidate
select_candidate-IsAllowed cfg model provider cs draw i =
    select_unproven-IsAllowed cfg model provider cs (unproven cfg (cleared cfg cs)) draw i _ refl
      (select_proven-IsAllowed cfg model provider cs (proven cfg (cleared cfg cs)) draw refl)
