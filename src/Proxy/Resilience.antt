-- ===== src/Proxy/Resilience.antt =====
-- backend/app/proxy/resilience.py: retries of a POST to the provider and the fallback model. Times
-- are whole ticks. What the provider answers to each attempt, and the clock after it, is an
-- environment; the random jitter is an argument.
pub mod Attempts
use varsten.Prelude.{
  ℕ, zero, suc, ◌+◌, ◌*◌, ◌^◌, min, String, Bool, true, not, ◌&&◌, ◌||◌, Option, none, some, List,
  [], ◌∷◌, str_eq, ltb, ◌==◌, if◌then◌else◌,
}
use varsten.Prelude.Dict.{Dict, lookup}
use varsten.Proxy.Circuit.{is_upstream_failure}

pub record Settings : Type 0 where
  pub proxy_retry_enabled : Bool
  pub proxy_retry_max_attempts : ℕ
  pub proxy_retry_base_delay : ℕ
  pub proxy_retry_max_delay : ℕ
  pub proxy_retry_budget : ℕ
  pub proxy_fallback_enabled : Bool
  pub proxy_fallback_models : Dict String

-- A response: its status, and its `Retry-After` header where that reads as a number.
pub record Response : Type 0 where
  pub status_code : ℕ
  pub retry_after : Option ℕ

-- How one attempt ends: a connection error, by a number that names it, or a response.
pub data Outcome : Type 0 where
  raised : ℕ → Outcome
  answered : Response → Outcome

-- The outcome of the attempt of each number, and the clock when it has ended.
abbrev pub Environment : Type 0
Environment = ℕ → Outcome × ℕ

unfoldable pub retries_enabled : Settings → Bool
retries_enabled cfg = cfg.proxy_retry_enabled && ltb 0 cfg.proxy_retry_max_attempts

unfoldable pub is_retryable_status : ℕ → Bool
is_retryable_status code = is_upstream_failure code

-- The loop of `backoff_delays`, from attempt `i` on with `n` to go; `uniform i c` is what
-- `random.uniform(0.0, c)` draws for attempt `i`.
unfoldable pub backoff_from : Settings → (ℕ → ℕ → ℕ) → ℕ → ℕ → List ℕ
backoff_from cfg uniform i zero = []
backoff_from cfg uniform i (suc n) =
    uniform i (min (cfg.proxy_retry_base_delay * 2 ^ i) cfg.proxy_retry_max_delay)
    ∷ backoff_from cfg uniform (i + 1) n

unfoldable pub backoff_delays : Settings → (ℕ → ℕ → ℕ) → List ℕ
unfolding backoff_from
backoff_delays cfg uniform =
    if not (retries_enabled cfg)
    then []
    else backoff_from cfg uniform 0 cfg.proxy_retry_max_attempts

unfoldable pub retry_after_seconds : Settings → Option ℕ → ℕ → ℕ
retry_after_seconds cfg header default = elim header [
  | none ↦ default
  | some v ↦ min v cfg.proxy_retry_max_delay
]

-- `fallback_model`
unfoldable pub fallback_model : Settings → String → String → Option String
fallback_model cfg project requested =
    if not cfg.proxy_fallback_enabled
    then none
    else elim (lookup project cfg.proxy_fallback_models) [
      | none ↦ none
      | some c ↦ if not (str_eq c "") && not (str_eq c requested) then some c else none
    ]

-- What `post_with_retry` returns, with the number of posts that it made and what it slept between
-- them.
pub record Posted : Type 0 where
  pub response : Option Response
  pub last_exc : Option ℕ
  pub posts : ℕ
  pub sleeps : List ℕ

abbrev pub give_up : Outcome → Posted
give_up (raised e) = record { response = none; last_exc = some e; posts = 1; sleeps = [] }
give_up (answered r) = record { response = some r; last_exc = none; posts = 1; sleeps = [] }

-- Whether the attempt calls for another one: an error, or a status that is not final.
unfoldable pub is_retryable : Outcome → Bool
is_retryable (raised e) = true
is_retryable (answered r) = not (r.status_code == 200 || not (is_retryable_status r.status_code))

-- What is slept before the next attempt.
unfoldable pub pause : Settings → ℕ → Outcome → ℕ
pause cfg delay (raised e) = delay
pause cfg delay (answered r) = retry_after_seconds cfg r.retry_after delay

-- The loop, at attempt number `i` with the delays that are left; the last attempt has none.
unfoldable pub attempts : Settings → Environment → ℕ → ℕ → List ℕ → Posted
attempts cfg env deadline i [] = give_up (env i).0
attempts cfg env deadline i (delay ∷ delays) =
    let (outcome, now) = env i in
    let rest = attempts cfg env deadline (i + 1) delays in
    if is_retryable outcome && ltb now deadline
    then record rest { posts = rest.posts + 1; sleeps = pause cfg delay outcome ∷ rest.sleeps }
    else give_up outcome

-- `post_with_retry`, begun at the time `start`.
unfoldable pub post_with_retry : Settings → (ℕ → ℕ → ℕ) → Environment → ℕ → Posted
unfolding attempts backoff_delays
post_with_retry cfg uniform env start =
    attempts cfg env (start + cfg.proxy_retry_budget) 0 (backoff_delays cfg uniform)
