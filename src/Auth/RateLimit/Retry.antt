-- ===== src/Auth/RateLimit/Retry.antt =====
-- apps/api/app/auth/rate_limit.py: a key that waits for the end of a window.
use penguard.Prelude.{
  ℕ, ◌+◌, ◌≤◌, ◌<◌, String, List, [], ◌∷◌, ◌++◌, ◌≡◌, refl, true, false, ◌==◌, eq_iff, arith, leb,
  All, inl, inr, Bool-cases,
}
use penguard.Prelude.Dicts.{dict_get}
use penguard.Auth.RateLimit.{RateLimiter, Attempts, bucket_of, window, drop_expired, full, allow}
use penguard.Auth.RateLimit.Buckets.{bucket_after, allow-own, allow-other, allow-reply}

-- The attempts after calls at their times.
unfoldable pub attempts_after : RateLimiter → List (String × ℕ) → Attempts → Attempts
attempts_after limiter [] attempts = attempts
attempts_after limiter ((key, now) ∷ calls) attempts =
    attempts_after limiter calls (allow limiter key now attempts).1

abbrev pub IsBy : ℕ → List (String × ℕ) → Type 0
IsBy last calls = All (λ (call : String × ℕ). call.1 ≤ last) calls

abbrev Early : ℕ → List ℕ → Type 0
Early last times = All (λ time. time ≤ last) times

drop_expired-Early :
    (last length_ms now : ℕ) (bucket : List ℕ)
    → Early last bucket
    → Early last (drop_expired length_ms now bucket)
unfolding drop_expired
drop_expired-Early last length_ms now [] h = tt
drop_expired-Early last length_ms now (first ∷ rest) h =
    elim (Bool-cases (leb (first + length_ms) now)) [
      | inl e ↦ rw e (drop_expired-Early last length_ms now rest h.1)
      | inr e ↦ rw e h
    ]

append-Early :
    (last now : ℕ) (bucket : List ℕ)
    → Early last bucket
    → now ≤ last
    → Early last (bucket ++ now ∷ [])
append-Early last now [] h k = (k, tt)
append-Early last now (first ∷ rest) h k = (h.0, append-Early last now rest h.1 k)

bucket_after-Early :
    (limiter : RateLimiter) (last now : ℕ) (bucket : List ℕ)
    → Early last bucket
    → now ≤ last
    → Early last (bucket_after limiter now bucket)
bucket_after-Early limiter last now bucket h k =
    let kept = drop_expired (window limiter) now bucket in
    let early = drop_expired-Early last (window limiter) now bucket h in
    elim (Bool-cases (full limiter kept)) [
      | inl f ↦ rw f early
      | inr f ↦ rw f (append-Early last now kept early k)
    ]

attempts_after-Early :
    (limiter : RateLimiter) (key : String) (last : ℕ) (calls : List (String × ℕ))
    (attempts : Attempts)
    → IsBy last calls
    → Early last (bucket_of key attempts)
    → Early last (bucket_of key (attempts_after limiter calls attempts))
unfolding attempts_after
attempts_after-Early limiter key last [] attempts h k = k
attempts_after-Early limiter key last ((j, now) ∷ calls) attempts h k =
    attempts_after-Early limiter key last calls (allow limiter j now attempts).1 h.1
      (elim (Bool-cases (j == key)) [
        | inl e ↦
            let same : j ≡ key = (eq_iff j key).0 e in
            rw (same, allow-own limiter key now attempts)
              (bucket_after-Early limiter last now (bucket_of key attempts) k h.0)
        | inr e ↦ rw (allow-other limiter j key now attempts e) k
      ])

drop_expired-all :
    (last length_ms now : ℕ) (bucket : List ℕ)
    → Early last bucket
    → last + length_ms ≤ now
    → drop_expired length_ms now bucket ≡ []
unfolding drop_expired
drop_expired-all last length_ms now [] h k = refl
drop_expired-all last length_ms now (first ∷ rest) h k =
    let gone : leb (first + length_ms) now ≡ true = ground (arith, h.0) in
    rw gone (drop_expired-all last length_ms now rest h.1 k)

-- No lockout: after any calls at times up to `last`, a call of any key is let through once the
-- window has passed since `last`, if the limiter lets anything through.
pub allow-again :
    (limiter : RateLimiter) (calls : List (String × ℕ)) (key : String) (last now : ℕ)
    → 0 < limiter.max_attempts
    → IsBy last calls
    → last + window limiter ≤ now
    → (allow limiter key now (attempts_after limiter calls [])).0 ≡ true
unfolding bucket_of dict_get
allow-again limiter calls key last now h k l =
    let attempts = attempts_after limiter calls [] in
    let early = attempts_after-Early limiter key last calls [] k tt in
    let empty = drop_expired-all last (window limiter) now (bucket_of key attempts) early l in
    let room : full limiter [] ≡ false = ground arith in
    rw (allow-reply limiter key now attempts, empty, room)
