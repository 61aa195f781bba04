-- ===== src/Tests/Prices.antt =====
-- Prices and costs of events at concrete inputs.
use varsten.Prelude.{
  ℕ, ◌+◌, ◌-◌, ◌*◌, ◌/◌, ◌≤◌, ◌<◌, String, ◌≡◌, refl, ◌⊎◌, Option, none, some, [], ◌∷◌,
}
use varsten.Billing.Pricing.{
  PriceRow, ResolvedPrice, Source, Prices, CacheEntry, cache_rate, compute_cost, from_catalog,
  resolve_price,
}
use varsten.Billing.Pricing.Latest.{IsHonest, IsResolved, resolve_price-IsResolved}
use varsten.Billing.Pricing.Cost.{cached_of, compute_cost_bounds}
use varsten.Prelude.Int.{pos}

abbrev row : String → Option String → Option String → ℕ → ℕ → PriceRow
row id organization provider cost at = record {
  id = id;
  organization_id = organization;
  model_key = "gpt-4o";
  provider = provider;
  input_cost_per_token = cost;
  output_cost_per_token = 4 * cost;
  cache_read_input_token_cost = some (cost / 2);
  effective_at = at;
}

abbrev prices : Prices
prices = record {
  overrides = row "v" (some "acme") none 2_000_000 50 ∷ [];
  catalog =
      row "a" none (some "openai") 2_500_000 10 ∷ row "b" none (some "openai") 2_400_000 40 ∷ [];
}

resolve_price-IsResolved_example :
    let out = resolve_price prices [] 100 "acme" "gpt-4o" "openai" 45 in
    IsHonest prices out.1
    × ((t : ℕ) × IsResolved prices "acme" "gpt-4o" "openai" t out.0)
    × ((100 ≤ 45 + 3600) ⊎ IsResolved prices "acme" "gpt-4o" "openai" 45 out.0)
resolve_price-IsResolved_example =
    resolve_price-IsResolved prices [] 100 "acme" "gpt-4o" "openai" 45 tt

catalog_then :
    (resolve_price prices [] 9000 "acme" "gpt-4o" "openai" 45).0
    ≡ some (from_catalog (row "b" none (some "openai") 2_400_000 40))
unfolding resolve_price varsten.Billing.Pricing.read_price varsten.Billing.Pricing.override_for
    varsten.Billing.Pricing.catalog_price_for varsten.Billing.Pricing.latest
catalog_then = refl

override_later :
    (resolve_price prices [] 9000 "acme" "gpt-4o" "openai" 60).0
    ≡ some (varsten.Billing.Pricing.from_override (row "v" (some "acme") none 2_000_000 50))
unfolding resolve_price varsten.Billing.Pricing.read_price varsten.Billing.Pricing.override_for
    varsten.Billing.Pricing.latest
override_later = refl

abbrev price : ResolvedPrice
price = from_catalog (row "a" none (some "openai") 2_500_000 10)

compute_cost_bounds_example :
    let raw =
      (1000 - cached_of 1000 (pos 400)) * price.input_cost_per_token
      + cached_of 1000 (pos 400) * cache_rate price
      + 10 * price.output_cost_per_token in
    let cost = compute_cost price 1000 10 (pos 400) in
    (10000 * cost ≤ raw + 5000)
    × (raw + 5000 < 10000 * cost + 10000)
    × ((price.input_cost_per_token < cache_rate price)
        ⊎ (raw ≤ 1000 * price.input_cost_per_token + 10 * price.output_cost_per_token))
compute_cost_bounds_example = compute_cost_bounds price 1000 10 (pos 400)
