-- ===== src/Proxy/RateLimit.antt =====
-- backend/app/core/ratelimit.py: fixed-window rate limits, per process and over Redis, and the
-- choice between them. A limit that is negative takes the branch of 0; times are whole ticks.
pub mod Bound
use varsten.Prelude.{
  ℕ, ◌+◌, ◌/◌, String, Bool, true, false, not, Option, none, some, [], leb, ◌==◌, if◌then◌else◌,
}
use varsten.Prelude.Dict.{Dict, lookup, insert}

-- `InMemoryFixedWindow._counts`: the bucket of the current window and the calls let through in it.
pub record Window : Type 0 where
  pub bucket : ℕ
  pub count : ℕ

-- The branch of `InMemoryFixedWindow.allow` on the window found, under the lock.
unfoldable pub count_call : String → ℕ → ℕ → Option Window → Dict Window → Bool × Dict Window
count_call key limit bucket none counts =
    (true, insert key (record { bucket = bucket; count = 1 }) counts)
count_call key limit bucket (some w) counts =
    if not (w.bucket == bucket)
    then (true, insert key (record { bucket = bucket; count = 1 }) counts)
    else if leb limit w.count
    then (false, counts)
    else (true, insert key (record { bucket = w.bucket; count = w.count + 1 }) counts)

-- `InMemoryFixedWindow.allow`; `none` is the exception of a division by a window of 0.
unfoldable pub allow_in_memory : String → ℕ → ℕ → ℕ → Dict Window → Option (Bool × Dict Window)
unfolding count_call
allow_in_memory key limit window now counts =
    if leb limit 0
    then some (true, counts)
    else if window == 0
    then none
    else some (count_call key limit (now / window) (lookup key counts) counts)

-- `RedisFixedWindow.allow`, on the count that the script returned; `none` is any error of Redis.
unfoldable pub allow_redis : ℕ → Option ℕ → Bool
allow_redis limit count =
    if leb limit 0 then true else elim count [ none ↦ true | some n ↦ leb n limit ]

-- What the two backends keep: the dict of one process, or nothing beside the client.
pub data Limiter : Type 0 where
  memory : Dict Window → Limiter
  redis : Limiter

-- `build_limiter`: whether the setting asks for Redis, whether a URL is set, and whether the client
-- could be constructed.
unfoldable pub build_limiter : Bool → Bool → Bool → Limiter
build_limiter wants_redis has_url constructs =
    if wants_redis
    then (if not has_url then memory [] else if constructs then redis else memory [])
    else memory []

-- The module's `allow`, which lets a call through on any exception of the limiter. `script` is the
-- answer of the Redis script to this call.
unfoldable pub allow : String → ℕ → ℕ → ℕ → Option ℕ → Limiter → Bool × Limiter
unfolding allow_in_memory allow_redis
allow key limit window now script (memory counts) =
    elim (allow_in_memory key limit window now counts) [
      | none ↦ (true, memory counts)
      | some (ok, counts') ↦ (ok, memory counts')
    ]
allow key limit window now script redis =
    (if window == 0 then true else allow_redis limit script, redis)
