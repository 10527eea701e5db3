-- ===== src/Auth/RateLimit/Windows.antt =====
-- apps/api/app/auth/rate_limit.py: how many attempts of a key any window lets through.
use penguard.Prelude.{
  ℕ, ◌+◌, ◌≤◌, ◌<◌, String, List, [], ◌∷◌, ◌++◌, ◌≡◌, refl, Bool, true, false, ◌&&◌, ◌==◌, eq_iff,
  eq_refl, arith, leb, ltb, length, length-append, filter, inl, inr, Bool-cases, if◌then◌else◌,
}
use penguard.Prelude.Dicts.{dict_get}
use penguard.Auth.RateLimit.Buckets.{allow-own, allow-other, allow-reply}
use penguard.Auth.RateLimit.{RateLimiter, Attempts, bucket_of, window, drop_expired, full, allow}

-- The times of the calls of `key` that are let through, among calls at their times.
unfoldable pub allowed_times : RateLimiter → String → List (String × ℕ) → Attempts → List ℕ
allowed_times limiter key [] attempts = []
allowed_times limiter key ((k, now) ∷ calls) attempts =
    let later = allowed_times limiter key calls (allow limiter k now attempts).1 in
    if k == key && (allow limiter k now attempts).0 then now ∷ later else later

-- The clock does not run backwards, from `start` on.
abbrev pub IsClock : ℕ → List (String × ℕ) → Type 0
IsClock start [] = Unit
IsClock start ((k, now) ∷ calls) = (start ≤ now) × IsClock now calls

-- In the window that begins after `start`.
abbrev pub within : ℕ → ℕ → ℕ → Bool
within start length_ms time = ltb start time && leb time (start + length_ms)

-- Dropping what has expired keeps what stands in a window that has not ended.
drop_expired-within :
    (start length_ms now : ℕ) (bucket : List ℕ)
    → now ≤ start + length_ms
    → length (filter (within start length_ms) (drop_expired length_ms now bucket))
      ≡ length (filter (within start length_ms) bucket)
unfolding drop_expired
drop_expired-within start length_ms now [] h = refl
drop_expired-within start length_ms now (first ∷ rest) h =
    elim (Bool-cases (leb (first + length_ms) now)) [
      | inl e ↦
          let early : within start length_ms first ≡ false = ground arith in
          rw (e, early) (drop_expired-within start length_ms now rest h)
      | inr e ↦ rw e
    ]

length-filter : (p : ℕ → Bool) (xs : List ℕ) → length (filter p xs) ≤ length xs
length-filter p [] = omega arith
length-filter p (x ∷ xs) = ground (arith, length-filter p xs)

length-drop_expired :
    (length_ms now : ℕ) (bucket : List ℕ)
    → length (drop_expired length_ms now bucket) ≤ length bucket
unfolding drop_expired
length-drop_expired length_ms now [] = omega arith
length-drop_expired length_ms now (first ∷ rest) =
    ground (arith, length-drop_expired length_ms now rest)

-- How many of the times stand in a window.
abbrev pub hits : ℕ → ℕ → List ℕ → ℕ
hits start length_ms times = length (filter (within start length_ms) times)

hits-append :
    (start length_ms : ℕ) (xs : List ℕ) (now : ℕ)
    → hits start length_ms (xs ++ now ∷ [])
      ≡ hits start length_ms (now ∷ []) + hits start length_ms xs
hits-append start length_ms [] now = omega arith
hits-append start length_ms (x ∷ xs) now = ground (arith, hits-append start length_ms xs now)

hits-cons :
    (start length_ms now : ℕ) (xs : List ℕ)
    → hits start length_ms (now ∷ xs) ≡ hits start length_ms (now ∷ []) + hits start length_ms xs
hits-cons start length_ms now xs = elim (Bool-cases (within start length_ms now)) [
  | inl e ↦ rw e (omega arith)
  | inr e ↦ rw e (omega arith)
]

-- After the window has ended, no call is in it.
allowed_times-late :
    (limiter : RateLimiter) (key : String) (start : ℕ) (calls : List (String × ℕ)) (from : ℕ)
    (attempts : Attempts)
    → IsClock from calls
    → start + window limiter < from
    → hits start (window limiter) (allowed_times limiter key calls attempts) ≡ 0
unfolding allowed_times
allowed_times-late limiter key start [] from attempts h k = refl
allowed_times-late limiter key start ((j, now) ∷ calls) from attempts h k =
    let past : start + window limiter < now = omega (arith, h.0, k) in
    let out : within start (window limiter) now ≡ false = ground arith in
    let rest =
      allowed_times-late limiter key start calls now (allow limiter j now attempts).1 h.1 past in
    elim (Bool-cases (j == key && (allow limiter j now attempts).0)) [
      | inl e ↦ rw (e, out) rest
      | inr e ↦ rw e rest
    ]

-- One call of the key, where `later` are the times that are let through after it.
module _ (limiter : RateLimiter) (key : String) (start now : ℕ) (attempts : Attempts)
    (short : length (bucket_of key attempts) ≤ limiter.max_attempts) where
  abbrev bucket : List ℕ
  bucket = bucket_of key attempts

  abbrev kept : List ℕ
  kept = drop_expired (window limiter) now bucket

  abbrev after : Attempts
  after = (allow limiter key now attempts).1

  length-after : length (bucket_of key after) ≤ limiter.max_attempts
  length-after =
      let fewer = length-drop_expired (window limiter) now bucket in
      rw (allow-own limiter key now attempts) (elim (Bool-cases (full limiter kept)) [
        | inl f ↦ rw f (omega (arith, fewer, short))
        | inr f ↦ rw f (ground (arith, length-append kept (now ∷ [])))
      ])

  own-step :
      (later : List ℕ)
      → (start + window limiter < now → hits start (window limiter) later ≡ 0)
      → hits start (window limiter) (bucket_of key after) + hits start (window limiter) later
        ≤ limiter.max_attempts
      → hits start (window limiter) bucket
          + hits start
              (window limiter)
              (if (allow limiter key now attempts).0 then now ∷ later else later)
        ≤ limiter.max_attempts
  own-step later ended h = elim (Bool-cases (leb now (start + window limiter))) [
    | inl e ↦
        let same = drop_expired-within start (window limiter) now bucket (ground arith) in
        elim (Bool-cases (full limiter kept)) [
          | inl f ↦
              let refused : (allow limiter key now attempts).0 ≡ false =
                rw (allow-reply limiter key now attempts, f) in
              let left : bucket_of key after ≡ kept = rw (allow-own limiter key now attempts, f) in
              let h' = rw left at h in rw refused (omega (arith, same, h'))
          | inr f ↦
              let passed : (allow limiter key now attempts).0 ≡ true =
                rw (allow-reply limiter key now attempts, f) in
              let left : bucket_of key after ≡ kept ++ now ∷ [] =
                rw (allow-own limiter key now attempts, f) in
              let h' = rw left at h in
              rw passed (
                omega (
                  arith,
                  same,
                  h',
                  hits-append start (window limiter) kept now,
                  hits-cons start (window limiter) now later,
                ))
        ]
    | inr e ↦
        let none_later = ended (ground arith) in
        let out : within start (window limiter) now ≡ false = ground arith in
        let most = length-filter (within start (window limiter)) bucket in
        elim (Bool-cases (allow limiter key now attempts).0) [
          | inl r ↦ rw (r, out, none_later) (omega (arith, most, short))
          | inr r ↦ rw (r, none_later) (omega (arith, most, short))
        ]
  ]

-- The deque of the key, and what is let through later.
allowed_times-bound :
    (limiter : RateLimiter) (key : String) (start : ℕ) (calls : List (String × ℕ)) (from : ℕ)
    (attempts : Attempts)
    → IsClock from calls
    → length (bucket_of key attempts) ≤ limiter.max_attempts
    → hits start (window limiter) (bucket_of key attempts)
        + hits start (window limiter) (allowed_times limiter key calls attempts)
      ≤ limiter.max_attempts
unfolding allowed_times
allowed_times-bound limiter key start [] from attempts h k =
    omega (arith, k, length-filter (within start (window limiter)) (bucket_of key attempts))
allowed_times-bound limiter key start ((j, now) ∷ calls) from attempts h k =
    let after = (allow limiter j now attempts).1 in
    elim (Bool-cases (j == key)) [
      | inr e ↦
          let rest =
            allowed_times-bound limiter key start calls now after h.1
              (rw (allow-other limiter j key now attempts e) k) in
          rw e (rw (allow-other limiter j key now attempts e) at rest)
      | inl e ↦
          let same : j ≡ key = (eq_iff j key).0 e in
          let next = (allow limiter key now attempts).1 in
          let rest =
            allowed_times-bound limiter key start calls now next h.1
              (length-after limiter key start now attempts k) in
          rw (same, eq_refl)
            (own-step limiter key start now attempts k (allowed_times limiter key calls next)
              (allowed_times-late limiter key start calls now next h.1) rest)
    ]

-- The rate limit: over any calls under a clock that does not run backwards, from no attempts, at
-- most `max_attempts` calls of a key are let through in any window of `window_seconds`.
pub allow-bound :
    (limiter : RateLimiter) (key : String) (start : ℕ) (calls : List (String × ℕ))
    → IsClock 0 calls
    → hits start (window limiter) (allowed_times limiter key calls []) ≤ limiter.max_attempts
unfolding bucket_of dict_get
allow-bound limiter key start calls h =
    let bound = allowed_times-bound limiter key start calls 0 [] h (omega arith) in
    omega (arith, bound)
