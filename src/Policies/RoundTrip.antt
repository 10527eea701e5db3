-- ===== src/Policies/RoundTrip.antt =====
-- apps/api/app/policies: the ids that the adapter makes and that it and the service take apart.
use Prim.Native.Char.{code}
use text.Mathlib.TextLemmas.{nil-append, cons-append, append_assoc}
use penguard.Prelude.{
  ℕ, String, concat, ◌≡◌, refl, ◌∙◌, eq_iff, Bool, true, false, ◌||◌, some, ◌==◌, arith, eqb, inl,
  inr, Bool-cases,
}
use penguard.Prelude.Json.{Json}
use penguard.Policies.{
  dumped, PolicyReviewCreateRequest, review_id, provider_of, row_id, native_policy_id,
}
use penguard.Policies.Texts.{prefix, has_char, first_part, last_part}

or_assoc : (a b c : Bool) → (a || (b || c)) ≡ ((a || b) || c)
or_assoc true b c = refl
or_assoc false b c = refl

has_char-concat : (c : ℕ) (s t : String) → has_char c (concat s t) ≡ (has_char c s || has_char c t)
unfolding has_char
has_char-concat c String.[] t = rw (nil-append t)
has_char-concat c (String.◌∷◌ d s) t =
    rw (cons-append d s t, has_char-concat c s t)
      (or_assoc (eqb (code d) c) (has_char c s) (has_char c t))

-- Whatever stands before the last separator is dropped.
last_part-concat :
    (c : ℕ) (s t : String) → has_char c t ≡ true → last_part c (concat s t) ≡ last_part c t
unfolding last_part
last_part-concat c String.[] t h = rw (nil-append t)
last_part-concat c (String.◌∷◌ d s) t h =
    let there : has_char c (concat s t) ≡ true = ground (arith, has_char-concat c s t) in
    rw (cons-append d s t, there) (last_part-concat c s t h)

-- Whatever stands behind the first separator is dropped.
first_part-concat :
    (c : ℕ) (s t : String) → has_char c s ≡ true → first_part c (concat s t) ≡ first_part c s
unfolding first_part has_char
first_part-concat c String.[] t h = cc h
first_part-concat c (String.◌∷◌ d s) t h = elim (Bool-cases (eqb (code d) c)) [
  | inl e ↦ rw (cons-append d s t, e)
  | inr e ↦
      let later : has_char c s ≡ true = rw e at h in
      rw (cons-append d s t, e, first_part-concat c s t later)
]

last_part-own : (c : ℕ) (s : String) → has_char c s ≡ false → last_part c s ≡ s
unfolding last_part has_char
last_part-own c String.[] h = refl
last_part-own c (String.◌∷◌ d s) h =
    let here : eqb (code d) c ≡ false = ground arith in
    let later : has_char c s ≡ false = ground arith in rw (later, here)

behind_colon : (s : String) → has_char b':' s ≡ false → last_part b':' (concat ":" s) ≡ s
unfolding last_part
behind_colon s h = rw (cons-append ":" "" s, nil-append s, h)

row_id-last :
    (integration_id native_id : String)
    → has_char b':' native_id ≡ false
    → last_part b':' (row_id integration_id native_id) ≡ native_id
unfolding row_id has_char
row_id-last integration_id native_id h =
    let behind = concat ":" native_id in
    let tail : concat ":policy:" native_id ≡ concat ":policy" behind =
      append_assoc ":policy" ":" native_id in
    let there : has_char b':' behind ≡ true = has_char-concat b':' ":" native_id in
    let there' : has_char b':' (concat integration_id (concat ":policy" behind)) ≡ true = ground (
      arith,
      has_char-concat b':' integration_id (concat ":policy" behind),
      has_char-concat b':' ":policy" behind,
      there,
    ) in
    let there'' : has_char b':' (concat ":policy" behind) ≡ true =
      ground (arith, has_char-concat b':' ":policy" behind, there) in
    rw tail (
      last_part-concat b':' "fortigate:" (concat integration_id (concat ":policy" behind)) there'
      ∙ (last_part-concat b':' integration_id (concat ":policy" behind) there''
          ∙ (last_part-concat b':' ":policy" behind there ∙ behind_colon native_id h)))

row_id-full : (integration_id native_id : String) → (row_id integration_id native_id == "") ≡ false
unfolding row_id has_char
row_id-full integration_id native_id = elim (Bool-cases (row_id integration_id native_id == "")) [
  | inr e ↦ e
  | inl e ↦
      let empty : row_id integration_id native_id ≡ "" =
        (eq_iff (row_id integration_id native_id) "").0 e in
      let there =
        has_char-concat b':' "fortigate:" (concat integration_id (concat ":policy:" native_id)) in
      cc there
]

-- The id of a review, whatever the digest, leads the service to the adapter that made it; and of
-- the id of a listed policy, whose native id has no colon, the adapter reads this native id.
pub ids-read_back :
    (digest : Json → String) (request : PolicyReviewCreateRequest)
    (integration_id native_id : String)
    → has_char b':' native_id ≡ false
    → (provider_of (review_id digest request) ≡ "fortigate")
      × (native_policy_id (some (row_id integration_id native_id)) ≡ some native_id)
unfolding provider_of review_id native_policy_id has_char first_part
ids-read_back digest request integration_id native_id h =
    let rest = prefix 12 (digest (dumped request)) in
    let marked : has_char b':' (concat "fortigate:" rest) ≡ true =
      has_char-concat b':' "fortigate:" rest in
    (
      rw (marked, first_part-concat b':' "fortigate:" rest refl),
      rw (row_id-full integration_id native_id, row_id-last integration_id native_id h),
    )
