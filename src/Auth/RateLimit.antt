-- ===== src/Auth/RateLimit.antt =====
-- apps/api/app/auth/rate_limit.py: the rate limiter that keeps the times of the attempts of each key.
-- A time is a number of milliseconds, which the clock gives as the argument `now`.
pub mod Buckets
pub mod Windows
pub mod Retry
use penguard.Prelude.Dicts.{dict_get, dict_set}
use penguard.Prelude.{
  ℕ, ◌+◌, ◌*◌, String, List, [], ◌∷◌, ◌++◌, Option, none, some, Bool, true, false, ◌==◌, leb,
  length, if◌then◌else◌,
}

pub record RateLimiter : Type 0 where
  pub max_attempts : ℕ
  pub window_seconds : ℕ

-- self.attempts, with a deque for each key
abbrev pub Attempts : Type 0
Attempts = List (String × List ℕ)

-- The deque of a key; a key that is missing starts with an empty one.
unfoldable pub bucket_of : String → Attempts → List ℕ
bucket_of key attempts = elim (dict_get key attempts) [ none ↦ [] | some bucket ↦ bucket ]

abbrev pub window : RateLimiter → ℕ
window limiter = limiter.window_seconds * 1000

-- while bucket and bucket[0] <= now - window: bucket.popleft()
unfoldable pub drop_expired : ℕ → ℕ → List ℕ → List ℕ
drop_expired length_ms now [] = []
drop_expired length_ms now (first ∷ rest) =
    let dropped = drop_expired length_ms now rest in
    if leb (first + length_ms) now then dropped else first ∷ rest

abbrev pub full : RateLimiter → List ℕ → Bool
full limiter bucket = leb limiter.max_attempts (length bucket)

-- The reply, and the attempts after it.
unfoldable pub allow : RateLimiter → String → ℕ → Attempts → Bool × Attempts
unfolding bucket_of dict_set drop_expired
allow limiter key now attempts =
    let bucket = drop_expired (window limiter) now (bucket_of key attempts) in
    if full limiter bucket
    then (false, dict_set key bucket attempts)
    else (true, dict_set key (bucket ++ now ∷ []) attempts)
