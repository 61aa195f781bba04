-- ===== src/Billing/Pricing.antt =====
-- backend/app/pricing/service.py: the price of a model at a time, and the cost of an event. Prices are whole
-- numbers of 10⁻¹² dollars and costs of 10⁻⁸, the scales of their columns.
pub mod Latest
pub mod Cost
use varsten.Prelude.{
  ℕ, ◌+◌, ◌-◌, ◌*◌, ◌/◌, min, String, Bool, true, false, ◌&&◌, Option, none, some, List, [], ◌∷◌,
  str_eq, ltb, leb, ◌==◌, if◌then◌else◌,
}
use varsten.Prelude.Int.{ℤ, pos_part}

-- A row of `model_prices`, with its provider, or of the overrides of organizations, where a provider
-- may be missing.
pub record PriceRow : Type 0 where
  pub id : String
  pub organization_id : Option String
  pub model_key : String
  pub provider : Option String
  pub input_cost_per_token : ℕ
  pub output_cost_per_token : ℕ
  pub cache_read_input_token_cost : Option ℕ
  pub effective_at : ℕ

pub data Source : Type 0 where
  override : Source
  catalog : Source

-- `ResolvedPrice`
pub record ResolvedPrice : Type 0 where
  pub input_cost_per_token : ℕ
  pub output_cost_per_token : ℕ
  pub cache_read_input_token_cost : Option ℕ
  pub source : Source
  pub price_version_id : Option String

abbrev pub later_of : Option PriceRow → PriceRow → PriceRow
later_of none r = r
later_of (some best) r = if ltb r.effective_at best.effective_at then best else r

-- `where(…, effective_at <= at).order_by(effective_at.desc()).limit(1)`
unfoldable pub latest : (PriceRow → Bool) → ℕ → List PriceRow → Option PriceRow
latest test at [] = none
latest test at (r ∷ rs) =
    let rest = latest test at rs in
    if test r && leb r.effective_at at then some (later_of rest r) else rest

abbrev pub is_text : String → Option String → Bool
is_text t none = false
is_text t (some s) = str_eq s t

-- The condition of `_override_for`.
abbrev pub overrides : String → String → String → PriceRow → Bool
overrides organization model_key provider r =
    is_text organization r.organization_id
    && str_eq r.model_key model_key
    && elim r.provider [ none ↦ true | some p ↦ str_eq p provider ]

-- The two conditions of `_catalog_price_for`.
abbrev pub lists_exactly : String → String → PriceRow → Bool
lists_exactly model_key provider r = str_eq r.model_key model_key && is_text provider r.provider

abbrev pub lists : String → PriceRow → Bool
lists model_key r = str_eq r.model_key model_key

abbrev pub from_override : PriceRow → ResolvedPrice
from_override r = record {
  input_cost_per_token = r.input_cost_per_token;
  output_cost_per_token = r.output_cost_per_token;
  cache_read_input_token_cost = r.cache_read_input_token_cost;
  source = override;
  price_version_id = none;
}

abbrev pub from_catalog : PriceRow → ResolvedPrice
from_catalog r = record {
  input_cost_per_token = r.input_cost_per_token;
  output_cost_per_token = r.output_cost_per_token;
  cache_read_input_token_cost = r.cache_read_input_token_cost;
  source = catalog;
  price_version_id = some r.id;
}

pub record Prices : Type 0 where
  pub overrides : List PriceRow
  pub catalog : List PriceRow

-- `_override_for`
unfoldable pub override_for : Prices → String → String → String → ℕ → Option ResolvedPrice
override_for db organization model_key provider at =
    elim (latest (overrides organization model_key provider) at db.overrides) [
      | none ↦ none
      | some r ↦ some (from_override r)
    ]

-- `_catalog_price_for`
unfoldable pub catalog_price_for : Prices → String → String → ℕ → Option ResolvedPrice
catalog_price_for db model_key provider at =
    elim (latest (lists_exactly model_key provider) at db.catalog) [
      | some r ↦ some (from_catalog r)
      | none ↦ elim (latest (lists model_key) at db.catalog) [
        | none ↦ none
        | some r ↦ some (from_catalog r)
      ]
    ]

-- What `resolve_price` reads from the database.
unfoldable pub read_price : Prices → String → String → String → ℕ → Option ResolvedPrice
read_price db organization model_key provider at =
    elim (override_for db organization model_key provider at) [
      | some p ↦ some p
      | none ↦ catalog_price_for db model_key provider at
    ]

-- The entries of the TTL cache that have not expired.
pub record CacheEntry : Type 0 where
  pub organization_id : String
  pub model_key : String
  pub provider : String
  pub price : Option ResolvedPrice

abbrev pub is_entry : String → String → String → CacheEntry → Bool
is_entry organization model_key provider e =
    str_eq e.organization_id organization
    && str_eq e.model_key model_key
    && str_eq e.provider provider

unfoldable pub cached : String → String → String → List CacheEntry → Option CacheEntry
cached organization model_key provider [] = none
cached organization model_key provider (e ∷ es) =
    if is_entry organization model_key provider e
    then some e
    else cached organization model_key provider es

abbrev pub store : Bool → CacheEntry → List CacheEntry → List CacheEntry
store cacheable e cache = if cacheable then e ∷ cache else cache

-- `resolve_price`, with the cache, whose time to live is 3600 ticks.
unfoldable pub resolve_price :
    Prices
    → List CacheEntry
    → ℕ
    → String
    → String
    → String
    → ℕ
    → Option ResolvedPrice × List CacheEntry
resolve_price db cache now organization model_key provider at =
    let cacheable = leb now (at + 3600) in
    let hit = if cacheable then cached organization model_key provider cache else none in
    let price = read_price db organization model_key provider at in
    let entry : CacheEntry = record {
      organization_id = organization;
      model_key = model_key;
      provider = provider;
      price = price;
    } in
    elim hit [ some e ↦ (e.price, cache) | none ↦ (price, store cacheable entry cache) ]

abbrev pub cache_rate : ResolvedPrice → ℕ
cache_rate p = elim p.cache_read_input_token_cost [ none ↦ p.input_cost_per_token | some c ↦ c ]

-- The cost before it is rounded.
unfoldable pub raw_cost : ResolvedPrice → ℕ → ℕ → ℤ → ℕ
raw_cost p input_tokens output_tokens cached_input_tokens =
    let cached = min (pos_part cached_input_tokens) input_tokens in
    (input_tokens - cached) * p.input_cost_per_token
    + cached * cache_rate p
    + output_tokens * p.output_cost_per_token

-- `compute_cost`: to 8 places, half up.
unfoldable pub compute_cost : ResolvedPrice → ℕ → ℕ → ℤ → ℕ
compute_cost p input_tokens output_tokens cached_input_tokens =
    (raw_cost p input_tokens output_tokens cached_input_tokens + 5000) / 10000

pub record EventCost : Type 0 where
  pub cost_usd : Option ℕ
  pub cost_source : String
  pub pricing_status : String
  pub price_version_id : Option String

abbrev pub source_name : Source → String
source_name override = "override"
source_name catalog = "catalog"

-- The cost under the price that is resolved.
unfoldable pub priced_event : Option ResolvedPrice → ℕ → ℕ → ℤ → Option ℕ → EventCost
priced_event (some p) input_tokens output_tokens cached_input_tokens reported = record {
  cost_usd = some (compute_cost p input_tokens output_tokens cached_input_tokens);
  cost_source = source_name p.source;
  pricing_status = "priced";
  price_version_id = p.price_version_id;
}
priced_event none input_tokens output_tokens cached_input_tokens (some cost) = record {
  cost_usd = some cost;
  cost_source = "reported";
  pricing_status = "model_not_in_catalog";
  price_version_id = none;
}
priced_event none input_tokens output_tokens cached_input_tokens none = record {
  cost_usd = none;
  cost_source = "unknown";
  pricing_status = "model_not_in_catalog";
  price_version_id = none;
}

abbrev pub is_none : Option ℕ → Bool
is_none none = true
is_none (some n) = false

-- `price_usage_event`
unfoldable pub price_usage_event :
    Prices
    → List CacheEntry
    → ℕ
    → String
    → String
    → String
    → ℕ
    → ℕ
    → ℤ
    → Option ℕ
    → ℕ
    → EventCost × List CacheEntry
price_usage_event db cache now organization model_key provider input output cached_input reported
      at =
    if (input == 0) && (output == 0) && is_none reported
    then (
      record {
        cost_usd = none;
        cost_source = "unknown";
        pricing_status = "missing_token_counts";
        price_version_id = none;
      },
      cache,
    )
    else (let (price, cache') = resolve_price db cache now organization model_key provider at in
        (priced_event price input output cached_input reported, cache'))
