-- ===== src/Billing/Pricing/Cost.antt =====
-- What an event costs.
use varsten.Prelude.{
  ℕ, ◌+◌, ◌-◌, ◌*◌, ◌/◌, ◌≤◌, ◌<◌, min, String, ◌≡◌, refl, ◌↔◌, ◌⊎◌, inl, inr, true, false, ◌&&◌,
  Option, none, some, List, arith, eq_iff, ltb, ◌==◌, Bool-cases,
}
use varsten.Prelude.Int.{ℤ, pos_part}
use varsten.Billing.Pricing.{
  ResolvedPrice, Prices, CacheEntry, cache_rate, raw_cost, compute_cost, priced_event, is_none,
  resolve_price, price_usage_event,
}

-- The cached tokens, of which there are no more than the tokens of the input.
abbrev pub cached_of : ℕ → ℤ → ℕ
cached_of input cached_input = min (pos_part cached_input) input

round_bounds :
    (raw : ℕ)
    → (10000 * ((raw + 5000) / 10000) ≤ raw + 5000)
      × (raw + 5000 < 10000 * ((raw + 5000) / 10000) + 10000)
round_bounds raw = omega arith

discount : (i c a b : ℕ) → c ≤ i → b ≤ a → (i - c) * a + c * b ≤ i * a
discount i c a b h k = grind arith

-- The cost is the exact one, rounded to the nearest unit, a half upwards; and where cached tokens are
-- not dearer than others, it is at most that of the same tokens uncached.
pub compute_cost_bounds :
    (p : ResolvedPrice) (input output : ℕ) (cached_input : ℤ)
    → let raw =
        (input - cached_of input cached_input) * p.input_cost_per_token
        + cached_of input cached_input * cache_rate p
        + output * p.output_cost_per_token in
      let cost = compute_cost p input output cached_input in
      (10000 * cost ≤ raw + 5000)
      × (raw + 5000 < 10000 * cost + 10000)
      × ((p.input_cost_per_token < cache_rate p)
          ⊎ (raw ≤ input * p.input_cost_per_token + output * p.output_cost_per_token))
unfolding compute_cost raw_cost
compute_cost_bounds p input output cached_input =
    let c = cached_of input cached_input in
    let raw =
      (input - c) * p.input_cost_per_token + c * cache_rate p + output * p.output_cost_per_token in
    let rounded = round_bounds raw in
    (
      rounded.0,
      rounded.1,
      elim (Bool-cases (ltb p.input_cost_per_token (cache_rate p))) [
        | inl dearer ↦ inl (ground arith)
        | inr cheaper ↦
            let cheap : cache_rate p ≤ p.input_cost_per_token = ground arith in
            let few : c ≤ input = omega arith in
            let all = discount input c p.input_cost_per_token (cache_rate p) few cheap in
            inr (omega (arith, all))
      ],
    )

priced_event_cost :
    (price : Option ResolvedPrice) (input output : ℕ) (cached_input : ℤ) (reported : Option ℕ)
    → let event = priced_event price input output cached_input reported in
      ((event.cost_usd ≡ none) ↔ ((reported ≡ none) × (price ≡ none)))
      × ((event.pricing_status ≡ "priced") ↔ (
          (p : ResolvedPrice) × (price ≡ some p)
          × (event.cost_usd ≡ some (compute_cost p input output cached_input))
          × (event.price_version_id ≡ p.price_version_id)))
unfolding priced_event
priced_event_cost (some p) input output cached_input reported =
    (ground arith, (λ h. (p, refl, refl, refl), λ h. refl))
priced_event_cost none input output cached_input (some c) = (
  ground arith,
  (
    λ h. absurd (ground (arith, eq_iff "model_not_in_catalog" "priced")),
    λ (p, e, c, v). absurd (ground arith),
  ),
)
priced_event_cost none input output cached_input none = (
  (λ h. (refl, refl), λ h. refl),
  (
    λ h. absurd (ground (arith, eq_iff "model_not_in_catalog" "priced")),
    λ (p, e, c, v). absurd (ground arith),
  ),
)

is_none-none : (o : Option ℕ) → is_none o ≡ true → o ≡ none
is_none-none none h = refl
is_none-none (some n) h = absurd (ground arith)

not_present : (o : Option ℕ) → o ≡ none → is_none o ≡ false → ⊥
not_present none e h = ground arith
not_present (some n) e h = ground arith

-- An event is left without a cost exactly when none was reported and either it has no tokens or no
-- price is found; a cost is marked as priced exactly when it is that of a price that is found.
price_usage_event_cost :
    (db : Prices) (cache : List CacheEntry) (now : ℕ) (organization model provider : String)
    (input output : ℕ) (cached_input : ℤ) (reported : Option ℕ) (at : ℕ)
    → let event =
        (price_usage_event db cache now organization model provider input output cached_input
          reported at).0 in
      let price = (resolve_price db cache now organization model provider at).0 in
      ((event.cost_usd ≡ none)
        ↔ ((reported ≡ none) × (((input ≡ 0) × (output ≡ 0)) ⊎ (price ≡ none))))
      × ((event.pricing_status ≡ "priced") ↔ (
          (p : ResolvedPrice) × (price ≡ some p)
          × (event.cost_usd ≡ some (compute_cost p input output cached_input))
          × (event.price_version_id ≡ p.price_version_id)))
unfolding price_usage_event
price_usage_event_cost db cache now organization model provider input output cached_input reported
      at =
    let price = (resolve_price db cache now organization model provider at).0 in
    let ih = priced_event_cost price input output cached_input reported in
    elim (Bool-cases ((input == 0) && (output == 0) && is_none reported)) [
      | inl missing ↦
          rw (missing, price_usage_event)
            (
              (
                λ e. (is_none-none reported (ground arith), inl (ground arith, ground arith)),
                λ h. refl,
              ),
              (
                λ e. absurd (ground (arith, eq_iff "missing_token_counts" "priced")),
                λ (p, e, c, v). absurd (ground arith),
              ),
            )
      | inr present ↦
          rw (present, price_usage_event)
            (
              (
                λ e. ((ih.0.0 e).0, inr (ih.0.0 e).1),
                λ (none_reported, why). ih.0.1 (
                  none_reported,
                  elim why [
                    | inl (i, o) ↦ absurd (not_present reported none_reported (ground arith))
                    | inr e ↦ e
                  ],
                ),
              ),
              ih.1,
            )
    ]
