-- ===== src/Proxy/Resilience/Attempts.antt =====
-- How often `post_with_retry` posts, what it returns, and how long it sleeps.
use varsten.Prelude.{
  ℕ, zero, suc, ◌+◌, ◌*◌, ◌^◌, ◌≤◌, ◌<◌, min, ◌≡◌, refl, ap, ◌⊎◌, inl, inr, true, false, List, [],
  ◌∷◌, arith, ltb, if◌then◌else◌, Bool-cases, length, All,
}
use varsten.Proxy.Resilience.{
  Settings, Outcome, raised, answered, Environment, retries_enabled, backoff_from, backoff_delays,
  retry_after_seconds, Posted, give_up, is_retryable, pause, attempts, post_with_retry,
}

-- The attempts from number `i` on that were made before the last of `n`: each called for another
-- one and ended before the deadline.
abbrev pub RetriedFrom : Environment → ℕ → ℕ → ℕ → Type 0
RetriedFrom env deadline i zero = Unit
RetriedFrom env deadline i (suc n) =
    (is_retryable (env i).0 ≡ true) × ((env i).1 < deadline) × RetriedFrom env deadline (i + 1) n

-- What is returned is the outcome of the last attempt.
abbrev pub Returns : Posted → Outcome → Type 0
Returns p o = (p.response ≡ (give_up o).response) × (p.last_exc ≡ (give_up o).last_exc)

pub record IsRun (env : Environment) (deadline i most : ℕ) (p : Posted) : Type 0 where
  pub last : ℕ
  pub posts_eq : p.posts ≡ last + 1
  pub within : last ≤ most
  pub retried : RetriedFrom env deadline i last
  pub returned : Returns p (env (i + last)).0
  pub final :
      (is_retryable (env (i + last)).0 ≡ false) ⊎ (deadline ≤ (env (i + last)).1) ⊎ (last ≡ most)

stop_here :
    (env : Environment) (deadline i most : ℕ)
    → (is_retryable (env i).0 ≡ false) ⊎ (deadline ≤ (env i).1) ⊎ (0 ≡ most)
    → IsRun env deadline i most (give_up (env i).0)
stop_here env deadline i most why =
    let e : i + 0 ≡ i = omega arith in
    record {
      last = 0;
      posts_eq = posts-give_up (env i).0;
      within = omega arith;
      retried = tt;
      returned = rw e (refl, refl);
      final = rw e why;
    }
  where
    posts-give_up : (o : Outcome) → (give_up o).posts ≡ 0 + 1
    posts-give_up (raised x) = omega arith
    posts-give_up (answered r) = omega arith

go_on :
    (cfg : Settings) (env : Environment) (deadline i most delay : ℕ) (rest : Posted)
    → is_retryable (env i).0 ≡ true
    → (env i).1 < deadline
    → IsRun env deadline (i + 1) most rest
    → IsRun env deadline i
        (suc most)
        (record rest { posts = rest.posts + 1; sleeps = pause cfg delay (env i).0 ∷ rest.sleeps })
go_on cfg env deadline i most delay rest again early run =
    let e : i + suc run.last ≡ i + 1 + run.last = omega arith in
    record {
      last = suc run.last;
      posts_eq = omega (arith, run.posts_eq);
      within = omega (arith, run.within);
      retried = (again, early, run.retried);
      returned = rw e run.returned;
      final = rw e (one_more run.final);
    }
  where
    one_more :
        (is_retryable (env (i + 1 + run.last)).0 ≡ false)
          ⊎ (deadline ≤ (env (i + 1 + run.last)).1)
          ⊎ (run.last ≡ most)
        → (is_retryable (env (i + 1 + run.last)).0 ≡ false)
          ⊎ (deadline ≤ (env (i + 1 + run.last)).1)
          ⊎ (suc run.last ≡ suc most)
    one_more (inl h) = inl h
    one_more (inr (inl h)) = inr (inl h)
    one_more (inr (inr h)) = inr (inr (omega (arith, h)))

attempts-IsRun :
    (cfg : Settings) (env : Environment) (deadline i : ℕ) (delays : List ℕ)
    → IsRun env deadline i (length delays) (attempts cfg env deadline i delays)
unfolding attempts
attempts-IsRun cfg env deadline i [] = stop_here env deadline i 0 (inr (inr refl))
attempts-IsRun cfg env deadline i (d ∷ ds) = elim (Bool-cases (is_retryable (env i).0)) [
  | inr final ↦ rw final (stop_here env deadline i (suc (length ds)) (inl final))
  | inl again ↦ elim (Bool-cases (ltb (env i).1 deadline)) [
    | inr late ↦
        rw (again, late) (stop_here env deadline i (suc (length ds)) (inr (inl (ground arith))))
    | inl early ↦
        rw (again, early)
          (go_on cfg env deadline i (length ds) d (attempts cfg env deadline (i + 1) ds) again
            (ground arith) (attempts-IsRun cfg env deadline (i + 1) ds))
  ]
]

length-backoff_from :
    (cfg : Settings) (uniform : ℕ → ℕ → ℕ) (i n : ℕ) → length (backoff_from cfg uniform i n) ≡ n
unfolding backoff_from
length-backoff_from cfg uniform i zero = refl
length-backoff_from cfg uniform i (suc n) = ap suc (length-backoff_from cfg uniform (i + 1) n)

length-backoff_delays :
    (cfg : Settings) (uniform : ℕ → ℕ → ℕ)
    → length (backoff_delays cfg uniform)
      ≡ (if cfg.proxy_retry_enabled then cfg.proxy_retry_max_attempts else 0)
unfolding backoff_delays retries_enabled
length-backoff_delays cfg uniform =
    ground (arith, length-backoff_from cfg uniform 0 cfg.proxy_retry_max_attempts)

-- Whatever the provider does, a request is posted a last time after at most the configured number
-- of retries, or after none where they are off; what comes back is that last attempt's response or
-- error; every attempt before it failed in a way that may be retried and ended within the budget;
-- and the last one was final, or over the budget, or used up the retries.
pub post_with_retry-IsRun :
    (cfg : Settings) (uniform : ℕ → ℕ → ℕ) (env : Environment) (start : ℕ)
    → IsRun env
        (start + cfg.proxy_retry_budget)
        0
        (if cfg.proxy_retry_enabled then cfg.proxy_retry_max_attempts else 0)
        (post_with_retry cfg uniform env start)
unfolding post_with_retry
post_with_retry-IsRun cfg uniform env start =
    rw (← length-backoff_delays cfg uniform)
      (attempts-IsRun cfg env (start + cfg.proxy_retry_budget) 0 (backoff_delays cfg uniform))

backoff_from-le :
    (cfg : Settings) (uniform : ℕ → ℕ → ℕ) (i n : ℕ)
    → ((j c : ℕ) → uniform j c ≤ c)
    → All (λ d. d ≤ cfg.proxy_retry_max_delay) (backoff_from cfg uniform i n)
unfolding backoff_from
backoff_from-le cfg uniform i zero h = tt
backoff_from-le cfg uniform i (suc n) h = (
  omega (arith, h i (min (cfg.proxy_retry_base_delay * 2 ^ i) cfg.proxy_retry_max_delay)),
  backoff_from-le cfg uniform (i + 1) n h,
)

pause-le :
    (cfg : Settings) (delay : ℕ) (o : Outcome)
    → delay ≤ cfg.proxy_retry_max_delay
    → pause cfg delay o ≤ cfg.proxy_retry_max_delay
unfolding pause retry_after_seconds
pause-le cfg delay (raised e) h = h
pause-le cfg delay (answered r) h = ground arith

attempts_sleeps-le :
    (cfg : Settings) (env : Environment) (deadline i : ℕ) (delays : List ℕ)
    → All (λ d. d ≤ cfg.proxy_retry_max_delay) delays
    → All (λ d. d ≤ cfg.proxy_retry_max_delay) (attempts cfg env deadline i delays).sleeps
unfolding attempts
attempts_sleeps-le cfg env deadline i [] h = sleeps-give_up (env i).0
  where
    sleeps-give_up : (o : Outcome) → All (λ d. d ≤ cfg.proxy_retry_max_delay) (give_up o).sleeps
    sleeps-give_up (raised x) = tt
    sleeps-give_up (answered r) = tt
attempts_sleeps-le cfg env deadline i (d ∷ ds) (h, hs) =
    ground (arith, attempts_sleeps-le cfg env deadline (i + 1) ds hs, pause-le cfg d (env i).0 h)

-- If the jitter stays within the cap that it is drawn for, no sleep between two attempts is longer
-- than the longest delay, also where the provider asks for one by `Retry-After`.
post_with_retry_sleeps-le :
    (cfg : Settings) (uniform : ℕ → ℕ → ℕ) (env : Environment) (start : ℕ)
    → ((i c : ℕ) → uniform i c ≤ c)
    → All (λ d. d ≤ cfg.proxy_retry_max_delay) (post_with_retry cfg uniform env start).sleeps
unfolding post_with_retry backoff_delays
post_with_retry_sleeps-le cfg uniform env start h =
    attempts_sleeps-le cfg env (start + cfg.proxy_retry_budget) 0 (backoff_delays cfg uniform)
      (ground (arith, backoff_from-le cfg uniform 0 cfg.proxy_retry_max_attempts h))
