-- ===== src/Proxy/Circuit/Local.antt =====
-- The breaker of one instance (backend/app/proxy/circuit.py) over every history of calls, and its cycle
-- of tripping, cooling down and probing.
use varsten.Prelude.{
  ℕ, ◌+◌, ◌≤◌, ◌<◌, String, ◌≡◌, ◌≢◌, ◌↔◌, true, false, Option, none, List, [], ◌∷◌, map, arith,
  length,
}
use varsten.Proxy.SharedState.{SharedStore}
use varsten.Proxy.Circuit.{
  Settings, State, CircuitBreaker, new_breaker, allow, record_success, record_failure,
}

-- A call of a breaker, with the time at which it is made.
pub data Call : Type 0 where
  asks : ℕ → Call
  succeeds : Call
  fails : ℕ → Call

module _ {S : Type 0} (store : SharedStore S) (cfg : Settings) where
  unfoldable pub step : CircuitBreaker × Option S → Call → CircuitBreaker × Option S
  unfolding allow record_success record_failure
  step (b, s) (Call.asks now) = let (_, b', s') = allow store cfg now b s in (b', s')
  step (b, s) Call.succeeds = record_success store b s
  step (b, s) (Call.fails now) = record_failure store cfg now b s

  unfoldable pub run : CircuitBreaker × Option S → List Call → CircuitBreaker × Option S
  run w [] = w
  run w (c ∷ cs) = run (step w c) cs

-- A closed breaker has counted fewer failures than the threshold, and any other at least so many.
abbrev pub Counts : Settings → State → ℕ → Type 0
Counts cfg State.closed n = n < cfg.circuit_breaker_fail_threshold
Counts cfg State.opened n = cfg.circuit_breaker_fail_threshold ≤ n
Counts cfg State.half_open n = cfg.circuit_breaker_fail_threshold ≤ n

module _ {S : Type 0} (store : SharedStore S) (cfg : Settings) where
  step-Counts :
      (w : CircuitBreaker × Option S) (c : Call)
      → 0 < cfg.circuit_breaker_fail_threshold
      → Counts cfg w.0.state w.0.failures
      → let b = (step store cfg w c).0 in Counts cfg b.state b.failures
  unfolding step
  step-Counts (b, s) (Call.asks now) t h = ground arith
  step-Counts (b, s) Call.succeeds t h = t
  step-Counts (b, s) (Call.fails now) t h = ground arith

  run_from-Counts :
      (w : CircuitBreaker × Option S) (cs : List Call)
      → 0 < cfg.circuit_breaker_fail_threshold
      → Counts cfg w.0.state w.0.failures
      → let b = (run store cfg w cs).0 in Counts cfg b.state b.failures
  unfolding run
  run_from-Counts w [] t h = h
  run_from-Counts w (c ∷ cs) t h = run_from-Counts (step store cfg w c) cs t (step-Counts w c t h)

  -- Whatever calls a new breaker has answered, with a shared store or without, it is closed while it
  -- has counted fewer failures than a positive threshold, and otherwise open or half open.
  run-Counts :
      (key : String) (s : Option S) (cs : List Call)
      → 0 < cfg.circuit_breaker_fail_threshold
      → let b = (run store cfg (new_breaker key, s) cs).0 in Counts cfg b.state b.failures
  run-Counts key s cs t = run_from-Counts (new_breaker key, s) cs t t

  failed_once :
      (b : CircuitBreaker) (s : Option S) (t : ℕ)
      → b.state ≢ State.half_open
      → let b' = (step store cfg (b, s) (Call.fails t)).0 in
        (b'.failures ≡ b.failures + 1) × (b'.state ≢ State.half_open)
  unfolding step
  failed_once b s t h = ground arith

  fail_run-failures :
      (w : CircuitBreaker × Option S) (ts : List ℕ)
      → w.0.state ≢ State.half_open
      → let b = (run store cfg w (map Call.fails ts)).0 in
        (b.failures ≡ w.0.failures + length ts) × (b.state ≢ State.half_open)
  unfolding run
  fail_run-failures w [] h = (omega arith, h)
  fail_run-failures (b, s) (t ∷ ts) h =
      let (n, closed) = failed_once b s t h in
      let (m, still) = fail_run-failures (step store cfg (b, s) (Call.fails t)) ts closed in
      (omega arith, still)

  -- Failures alone, at any times, open a new breaker exactly when they reach the positive threshold.
  fail_run-opened_iff :
      (key : String) (s : Option S) (ts : List ℕ)
      → 0 < cfg.circuit_breaker_fail_threshold
      → let b = (run store cfg (new_breaker key, s) (map Call.fails ts)).0 in
        (b.failures ≡ length ts)
        × ((b.state ≡ State.opened) ↔ (cfg.circuit_breaker_fail_threshold ≤ length ts))
  fail_run-opened_iff key s ts t =
      let counted = run-Counts key s (map Call.fails ts) t in
      let (n, h) = fail_run-failures (new_breaker key, s) ts (λ e. cc) in ground arith

  -- Without a shared store an enabled open breaker refuses until the reset time is over, then lets
  -- a probe through half open; that probe's success closes it with no failures counted, and its
  -- failure opens it again for a whole reset time from then on.
  open_cycle :
      (b : CircuitBreaker) (now later : ℕ)
      → cfg.circuit_breaker_enabled ≡ true
      → b.state ≡ State.opened
      → (now < b.opened_at + cfg.circuit_breaker_reset
          → allow store cfg now b none ≡ (false, b, none))
        × (b.opened_at + cfg.circuit_breaker_reset ≤ now
            → let probe = record b { state = State.half_open } in
              (allow store cfg now b none ≡ (true, probe, none))
              × (record_success store probe none
                  ≡ (record b { state = State.closed; failures = 0 }, none))
              × (record_failure store cfg later probe none
                  ≡ (record b { failures = b.failures + 1; opened_at = later }, none)))
  unfolding allow record_success record_failure
  open_cycle b now later on is_open = ground arith
