-- ===== src/Proxy.antt =====
-- The request path, backend/app/proxy: shared safety state, the circuit breaker, rate limits,
-- rollout, candidate selection, budget caps and upstream retries.
pub mod SharedState
pub mod Circuit
pub mod RateLimit
pub mod Canary
pub mod Bandit
pub mod Budget
pub mod Resilience
pub mod Cache
