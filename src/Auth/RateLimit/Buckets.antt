-- ===== src/Auth/RateLimit/Buckets.antt =====
-- apps/api/app/auth/rate_limit.py: what one call leaves in the deque of a key.
use penguard.Prelude.{
  ℕ, String, List, [], ◌∷◌, ◌++◌, ◌≡◌, false, not, ◌==◌, eq_refl, inl, inr, Bool-cases,
  if◌then◌else◌,
}
use penguard.Prelude.Dicts.{dict_set, dict_get-dict_set}
use penguard.Auth.RateLimit.{RateLimiter, Attempts, bucket_of, window, drop_expired, full, allow}

bucket_of-dict_set :
    (j k : String) (bucket : List ℕ) (attempts : Attempts)
    → bucket_of j (dict_set k bucket attempts) ≡ (if k == j then bucket else bucket_of j attempts)
unfolding bucket_of
bucket_of-dict_set j k bucket attempts = elim (Bool-cases (k == j)) [
  | inl e ↦ rw (bucket_of, dict_get-dict_set j k bucket attempts, e)
  | inr e ↦ rw (bucket_of, dict_get-dict_set j k bucket attempts, e)
]

-- What one call leaves in the deque of `key`.
abbrev pub bucket_after : RateLimiter → ℕ → List ℕ → List ℕ
bucket_after limiter now bucket =
    let rest = drop_expired (window limiter) now bucket in
    if full limiter rest then rest else rest ++ now ∷ []

pub allow-own :
    (limiter : RateLimiter) (key : String) (now : ℕ) (attempts : Attempts)
    → bucket_of key (allow limiter key now attempts).1
      ≡ bucket_after limiter now (bucket_of key attempts)
unfolding allow
allow-own limiter key now attempts =
    let rest = drop_expired (window limiter) now (bucket_of key attempts) in
    elim (Bool-cases (full limiter rest)) [
      | inl f ↦ rw (f, bucket_of-dict_set key key rest attempts, eq_refl)
      | inr f ↦ rw (f, bucket_of-dict_set key key (rest ++ now ∷ []) attempts, eq_refl)
    ]

pub allow-other :
    (limiter : RateLimiter) (k key : String) (now : ℕ) (attempts : Attempts)
    → (k == key) ≡ false
    → bucket_of key (allow limiter k now attempts).1 ≡ bucket_of key attempts
unfolding allow
allow-other limiter k key now attempts e =
    let rest = drop_expired (window limiter) now (bucket_of k attempts) in
    elim (Bool-cases (full limiter rest)) [
      | inl f ↦ rw (f, bucket_of-dict_set key k rest attempts, e)
      | inr f ↦ rw (f, bucket_of-dict_set key k (rest ++ now ∷ []) attempts, e)
    ]

pub allow-reply :
    (limiter : RateLimiter) (key : String) (now : ℕ) (attempts : Attempts)
    → (allow limiter key now attempts).0
      ≡ not (full limiter (drop_expired (window limiter) now (bucket_of key attempts)))
unfolding allow
allow-reply limiter key now attempts =
    elim (Bool-cases (full limiter (drop_expired (window limiter) now (bucket_of key attempts)))) [
      | inl f ↦ rw f
      | inr f ↦ rw f
    ]
