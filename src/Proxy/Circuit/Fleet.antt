-- ===== src/Proxy/Circuit/Fleet.antt =====
-- Several instances with the breaker of one upstream, over a shared store that keeps its laws.
use varsten.Prelude.{ℕ, ◌+◌, ◌≤◌, ◌<◌, ◌≡◌, true, false, some, arith}
use varsten.Proxy.SharedState.{SharedStore, IsStore}
use varsten.Proxy.Circuit.{
  Settings, State, CircuitBreaker, open_key, allow, allow_local, record_success, record_failure,
  trips,
}

module _ {S : Type 0} (store : SharedStore S) (laws : IsStore store) (cfg : Settings) where
  open laws use {get-set_live, get-set_over, get-delete}

  -- The failure that trips the breaker `a` of one instance stops every enabled instance: until the
  -- reset time is over, `allow` of any other breaker `b` of that upstream refuses, whatever `b` has
  -- counted itself, and leaves `b` alone; from then on `b` goes by its own state.
  pub record_failure_stops_fleet :
      (a b : CircuitBreaker) (t now : ℕ) (s : S)
      → cfg.circuit_breaker_enabled ≡ true
      → b.key ≡ a.key
      → trips cfg a.state (a.failures + 1) ≡ true
      → t ≤ now
      → let shared = (record_failure store cfg t a (some s)).1 in
        let (ok, b', _) = allow store cfg now b shared in
        (now < t + cfg.circuit_breaker_reset → (ok ≡ false) × (b' ≡ b))
        × (t + cfg.circuit_breaker_reset ≤ now → (ok, b') ≡ allow_local cfg now b.state b)
  unfolding record_failure allow
  record_failure_stops_fleet a b t now s on same trip order = (
    λ early.
        let live =
          get-set_live (open_key a.key) "1" cfg.circuit_breaker_reset t now s order early in
        ground arith,
    λ late.
        let over = get-set_over (open_key a.key) "1" cfg.circuit_breaker_reset t now s late in
        ground arith,
  )

  -- A success that any instance records closes its own breaker and takes the published flag back:
  -- every other breaker of that upstream then goes by its own state.
  record_success_frees_fleet :
      (a b : CircuitBreaker) (now : ℕ) (s : S)
      → cfg.circuit_breaker_enabled ≡ true
      → b.key ≡ a.key
      → let (a', shared) = record_success store a (some s) in
        let (ok, b', _) = allow store cfg now b shared in
        (a' ≡ record a { state = State.closed; failures = 0 })
        × ((ok, b') ≡ allow_local cfg now b.state b)
  unfolding record_success allow
  record_success_frees_fleet a b now s on same =
      let gone = get-delete (open_key a.key) now s in ground arith
