-- ===== src/Proxy/Circuit.antt =====
-- backend/app/proxy/circuit.py: the circuit breaker of one upstream, and the flag that it
-- publishes to the store which app instances share. `time.monotonic()` is the argument `now`.
pub mod Local
pub mod Fleet
use Prim.Native.String.{◌++◌}
use varsten.Prelude.{
  ℕ, ◌+◌, String, Bool, true, false, not, ◌||◌, Option, none, some, leb, ◌==◌, if◌then◌else◌,
}
use varsten.Proxy.SharedState.{SharedStore}

-- The settings that the breaker reads; times are in ticks.
pub record Settings : Type 0 where
  pub circuit_breaker_enabled : Bool
  pub circuit_breaker_fail_threshold : ℕ
  pub circuit_breaker_reset : ℕ

pub data State : Type 0 where
  closed : State
  opened : State
  half_open : State

pub record CircuitBreaker : Type 0 where
  pub key : String
  pub state : State
  pub failures : ℕ
  pub opened_at : ℕ

-- `CircuitBreaker.__init__`
abbrev pub new_breaker : String → CircuitBreaker
new_breaker k = record { key = k; state = State.closed; failures = 0; opened_at = 0 }

-- `status_code in UPSTREAM_FAILURE_STATUSES or status_code >= 500`
unfoldable pub is_upstream_failure : ℕ → Bool
is_upstream_failure code =
    (code == 429 || code == 500 || code == 502 || code == 503 || code == 504) || leb 500 code

abbrev pub open_key : String → String
open_key key = "circuit:open:" ++ key

abbrev is_closed : State → Bool
is_closed State.closed = true
is_closed State.opened = false
is_closed State.half_open = false

abbrev is_half_open : State → Bool
is_half_open State.closed = false
is_half_open State.opened = false
is_half_open State.half_open = true

-- The part of `allow` after the shared flag, by the breaker's own state. The code's test
-- `now - opened_at >= reset` is written as a sum, which no truncated subtraction can change.
unfoldable pub allow_local : Settings → ℕ → State → CircuitBreaker → Bool × CircuitBreaker
allow_local cfg now State.opened b =
    if leb (b.opened_at + cfg.circuit_breaker_reset) now
    then (true, record b { state = State.half_open })
    else (false, b)
allow_local cfg now State.closed b = (true, b)
allow_local cfg now State.half_open b = (true, b)

-- `record_success` on the breaker itself.
unfoldable pub success_local : CircuitBreaker → CircuitBreaker
success_local b = record b { state = State.closed; failures = 0 }

-- Whether the failure counted as number `failures` trips the breaker.
unfoldable pub trips : Settings → State → ℕ → Bool
trips cfg s failures = is_half_open s || leb cfg.circuit_breaker_fail_threshold failures

-- `record_failure` on the breaker itself, with whether it tripped.
unfoldable pub failure_local : Settings → ℕ → CircuitBreaker → Bool × CircuitBreaker
unfolding trips
failure_local cfg now b =
    let n = b.failures + 1 in
    if trips cfg b.state n
    then (true, record b { failures = n; state = State.opened; opened_at = now })
    else (false, record b { failures = n })

-- One instance: its breaker, beside the shared store that it was configured with, if any.
module _ {S : Type 0} (store : SharedStore S) where
  -- `_shared_open`
  unfoldable pub shared_open : String → ℕ → Option S → Bool × Option S
  shared_open key now none = (false, none)
  shared_open key now (some s) =
      let (value, s') = store.get (open_key key) now s in
      (elim value [ none ↦ false | some _ ↦ true ], some s')

  -- `_shared_set_open`
  unfoldable pub shared_set_open : Settings → String → ℕ → Option S → Option S
  shared_set_open cfg key now none = none
  shared_set_open cfg key now (some s) =
      some (store.set (open_key key) "1" (some cfg.circuit_breaker_reset) now s)

  -- `_shared_clear_open`
  unfoldable pub shared_clear_open : String → Option S → Option S
  shared_clear_open key none = none
  shared_clear_open key (some s) = some (store.delete (open_key key) s)

  -- `CircuitBreaker.allow`
  unfoldable pub allow : Settings → ℕ → CircuitBreaker → Option S → Bool × CircuitBreaker × Option S
  unfolding shared_open allow_local
  allow cfg now b shared =
      if not cfg.circuit_breaker_enabled
      then (true, b, shared)
      else let (published, shared') = shared_open b.key now shared in
        let (ok, b') = allow_local cfg now b.state b in
        if published then (false, b, shared') else (ok, b', shared')

  -- `CircuitBreaker.record_success`
  unfoldable pub record_success : CircuitBreaker → Option S → CircuitBreaker × Option S
  unfolding success_local shared_clear_open
  record_success b shared = (success_local b, shared_clear_open b.key shared)

  -- `CircuitBreaker.record_failure`
  unfoldable pub record_failure :
      Settings → ℕ → CircuitBreaker → Option S → CircuitBreaker × Option S
  unfolding failure_local shared_set_open
  record_failure cfg now b shared =
      let (tripped, b') = failure_local cfg now b in
      (b', if tripped then shared_set_open cfg b.key now shared else shared)
