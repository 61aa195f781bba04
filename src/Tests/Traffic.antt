-- ===== src/Tests/Traffic.antt =====
-- The request path at concrete inputs.
use varsten.Prelude.{
  ℕ, zero, suc, ◌≤◌, ◌<◌, String, ◌≡◌, refl, ◌↔◌, ◌⊎◌, true, false, Option, none, some, List, [],
  ◌∷◌, map, arith, All,
}
use varsten.Prelude.Int.{pos}
use varsten.Prelude.Dict.{Dict}
use varsten.Proxy.SharedState.InProcess.{Item}
use varsten.Proxy.SharedState.InProcess.Laws.{in_process, in_process-IsStore}
use varsten.Proxy.Circuit
use varsten.Proxy.Circuit.{
  State, CircuitBreaker, new_breaker, trips, record_failure, record_success, allow_local,
}
use varsten.Proxy.Circuit.Local
use varsten.Proxy.Circuit.Local.{Counts}
use varsten.Proxy.Circuit.Fleet.{record_failure_stops_fleet}
use varsten.Proxy.RateLimit.{memory}
use varsten.Proxy.RateLimit.Bound.{admitted, admitted-le-limit}
use varsten.Proxy.Canary
use varsten.Proxy.Canary.{in_rollout, maybe_promote, fully_live}
use varsten.Proxy.Canary.Ramp.{promote_times, promote_times-top}
use varsten.Proxy.Bandit
use varsten.Proxy.Bandit.{CandidateStats, Drawn, select_candidate}
use varsten.Proxy.Bandit.Selection.{IsAllowed, select_candidate-IsAllowed}
use varsten.Proxy.Budget.{
  UsageEvent, BudgetRule, Cap, RequestContext, evaluate_budgets, compute_exhausted,
}
use varsten.Proxy.Budget.Agreement.{exhausted_statuses, compute_exhausted-evaluate_budgets}
use varsten.Proxy.Budget.Cache.{CapsText, TtlCache, budget_key, exhausted_hard_caps}
use varsten.Proxy.Budget.Cache
use varsten.Proxy.Resilience
use varsten.Proxy.Resilience.{Outcome, Environment, answered, raised, post_with_retry}
use varsten.Proxy.Resilience.Attempts.{IsRun, post_with_retry-IsRun}

abbrev breaker_settings : Circuit.Settings
breaker_settings = record {
  circuit_breaker_enabled = true;
  circuit_breaker_fail_threshold = 2;
  circuit_breaker_reset = 30;
}

abbrev calls : List Local.Call
calls = Local.asks 1 ∷ Local.fails 2 ∷ Local.fails 3 ∷ Local.asks 40 ∷ []

abbrev open_breaker : CircuitBreaker
open_breaker = record { key = "openai"; state = State.opened; failures = 2; opened_at = 10 }

abbrev failing : CircuitBreaker
failing = record { key = "openai"; state = State.closed; failures = 1; opened_at = 0 }

record_failure_stops_fleet_example :
    let shared = (record_failure in_process breaker_settings 10 failing (some [])).1 in
    let (ok, b', _) = Circuit.allow in_process breaker_settings 20 (new_breaker "openai") shared in
    (20 < 40 → (ok ≡ false) × (b' ≡ new_breaker "openai"))
    × (40 ≤ 20 → (ok, b') ≡ allow_local breaker_settings 20 State.closed (new_breaker "openai"))
unfolding trips
record_failure_stops_fleet_example =
    record_failure_stops_fleet in_process in_process-IsStore breaker_settings failing
      (new_breaker "openai") 10 20 [] refl refl refl (omega arith)

admitted-le-limit_example :
    admitted 1 60 "ip" 1 (("ip", 61) ∷ ("ip", 62) ∷ ("other", 70) ∷ []) (memory []) ≤ 1
admitted-le-limit_example =
    admitted-le-limit 1 60 1 0 "ip" (("ip", 61) ∷ ("ip", 62) ∷ ("other", 70) ∷ []) (omega arith)
      (omega arith) (omega arith, (omega arith, (omega arith, tt)))

abbrev canary_settings : Canary.Settings
canary_settings = record {
  canary_enabled = true;
  canary_initial_percent = 5;
  canary_stages = 5 ∷ 25 ∷ 100 ∷ [];
}

promote_times-top_example :
    let p = promote_times canary_settings 3 5 in
    (fully_live ≤ p) ⊎ All (λ s. s ≤ p) (5 ∷ 25 ∷ 100 ∷ [])
promote_times-top_example = promote_times-top canary_settings 5 refl

abbrev bandit_settings : Bandit.Settings
bandit_settings = record {
  bandit_quality_floor = 95;
  bandit_exploration_budget = 10;
  bandit_min_samples = 50;
  one = 100;
}

abbrev candidate : String → ℕ → CandidateStats
candidate model samples = record {
  model = model;
  provider = "openai";
  sample_count = samples;
  quality_pass_rate = some 97;
  average_savings_usd = some (pos samples);
}

abbrev drawn : List Drawn
drawn = (candidate "mini" 80, 96) ∷ (candidate "nano" 3, 40) ∷ []

select_candidate-IsAllowed_example :
    IsAllowed bandit_settings "mini" "openai" drawn 5
      (select_candidate bandit_settings "mini" "openai" drawn 5 0)
select_candidate-IsAllowed_example =
    select_candidate-IsAllowed bandit_settings "mini" "openai" drawn 5 0

abbrev spending : List UsageEvent
spending =
    record {
      project_id = "p";
      team = some "search";
      feature = none;
      customer_id = none;
      received_at = 7;
      cost_usd = pos 120;
    }
    ∷ []

abbrev budget_rules : List BudgetRule
budget_rules =
    record {
      project_id = "p";
      owner_type = "team";
      owner_key = "search";
      monthly_budget_usd = pos 100;
      enabled = true;
      hard_cap_enabled = true;
    }
    ∷ []

compute_exhausted-evaluate_budgets_example :
    compute_exhausted spending budget_rules "p" 5
    ≡ exhausted_statuses (evaluate_budgets spending budget_rules "p" 5)
compute_exhausted-evaluate_budgets_example =
    compute_exhausted-evaluate_budgets spending budget_rules "p" 5

abbrev search_request : RequestContext
search_request = record { team = some "search"; feature = none; customer_id = none }

-- A text form of no cap and of one cap, and a cache that holds one set of caps.
abbrev caps_text : CapsText
caps_text = record {
  serialize_caps = λ caps. elim caps [ [] ↦ "" | c ∷ _ ↦ c.1 ];
  deserialize_caps = λ text. some (("team", text) ∷ []);
}

abbrev caps_cache : TtlCache (Option (List Cap))
caps_cache = record { get = λ k now c. c; set = λ k caps now c. some caps }

abbrev cache_settings : Cache.Settings
cache_settings = record { budget_enforcement_enabled = true; budget_enforcement_cache_ttl = 30 }

abbrev search_cap : List Cap
search_cap = ("team", "search") ∷ []

empty_store_misses : (in_process.get (budget_key "p") 5 []).0 ≡ none
unfolding varsten.Proxy.SharedState.InProcess.get varsten.Prelude.Dict.lookup
empty_store_misses = refl

abbrev retry_settings : Resilience.Settings
retry_settings = record {
  proxy_retry_enabled = true;
  proxy_retry_max_attempts = 2;
  proxy_retry_base_delay = 1;
  proxy_retry_max_delay = 4;
  proxy_retry_budget = 30;
  proxy_fallback_enabled = false;
  proxy_fallback_models = [];
}

-- The provider refuses once and then answers.
abbrev provider : Environment
provider zero = (answered (record { status_code = 503; retry_after = some 9 }), 2)
provider (suc n) = (answered (record { status_code = 200; retry_after = none }), 7)

post_with_retry-IsRun_example :
    IsRun provider 30 0 2 (post_with_retry retry_settings (λ i c. c) provider 0)
post_with_retry-IsRun_example = post_with_retry-IsRun retry_settings (λ i c. c) provider 0
