-- ===== src/Policies/Reviewed.antt =====
-- apps/api/app/policies/fortigate_adapter.py: what has been reviewed before it is applied.
use penguard.Prelude.{
  String, List, [], ◌∷◌, ◌≡◌, refl, sym, ap, ◌∙◌, true, some, ◌==◌, eq_iff, All, inl, inr,
  Bool-cases, Option-cases,
}
use penguard.Prelude.Json.{Json}
use penguard.Prelude.Dicts.{dict_get, dict_get-All, dict_set-All}
use penguard.Policies.{
  Reviews, PolicyReview, PolicyReviewCreateRequest, PolicyReviewApplyRequest, applied, Applied,
  create_review, apply_review, apply_stored, review_of, review_id, review_hash, call_of,
}

-- The reviews after the requests to create them.
unfoldable pub reviews_after : (Json → String) → List PolicyReviewCreateRequest → Reviews → Reviews
reviews_after digest [] reviews = reviews
reviews_after digest (request ∷ requests) reviews =
    reviews_after digest requests (create_review digest request reviews).1

module _ (digest : Json → String) (P : PolicyReviewCreateRequest → Type 0) where
  -- An entry is the review of a request, under its id.
  abbrev IsEntry : String → PolicyReview × PolicyReviewCreateRequest → Type 0
  IsEntry id (review, request) =
      P request × ((review ≡ review_of digest request) × (id ≡ review_id digest request))

  abbrev AreEntries : Reviews → Type 0
  AreEntries reviews =
      All (λ (entry : String × (PolicyReview × PolicyReviewCreateRequest)). IsEntry entry.0 entry.1)
        reviews

  reviews_after-Entries :
      (requests : List PolicyReviewCreateRequest) (reviews : Reviews)
      → All P requests
      → AreEntries reviews
      → AreEntries (reviews_after digest requests reviews)
  unfolding reviews_after create_review
  reviews_after-Entries [] reviews h k = k
  reviews_after-Entries (request ∷ requests) reviews h k =
      let entry : PolicyReview × PolicyReviewCreateRequest = (review_of digest request, request) in
      reviews_after-Entries requests (create_review digest request reviews).1 h.1
        (dict_set-All IsEntry (review_id digest request) entry reviews (h.0, (refl, refl)) k)

  -- A request that was reviewed, and whose call is made.
  abbrev pub WasReviewed : String → String → PolicyReviewApplyRequest → Applied → Type 0
  WasReviewed owner_user_id id payload result =
      (request : PolicyReviewCreateRequest) × (P request
        × ((id ≡ review_id digest request)
            × ((payload.review_hash ≡ review_hash digest id request)
                × ((payload.confirmed ≡ true)
                    × ((call_of request ≡ some result.call)
                        × ((result.integration_id ≡ request.integration_id)
                            × (result.owner_user_id ≡ owner_user_id)))))))

  apply_stored-Reviewed :
      (owner_user_id id : String) (payload : PolicyReviewApplyRequest)
      (entry : PolicyReview × PolicyReviewCreateRequest) (result : Applied)
      → IsEntry id entry
      → apply_stored owner_user_id id payload (some entry) ≡ applied result
      → WasReviewed owner_user_id id payload result
  unfolding review_of
  apply_stored-Reviewed owner_user_id id payload (review, request) result (p, (same, under)) h =
      elim (Bool-cases (review.review_hash == payload.review_hash)) [
        | inr e ↦ cc (rw e at h)
        | inl e ↦ elim (Bool-cases payload.confirmed) [
          | inr c ↦ cc (rw (e, c) at h)
          | inl c ↦ elim (Option-cases (call_of request)) [
            | inl k ↦ cc (rw (e, c, k) at h)
            | inr (call, k) ↦
                let made : Applied = record {
                  id = id;
                  integration_id = review.integration_id;
                  owner_user_id = owner_user_id;
                  call = call;
                } in
                let done : applied made ≡ applied result = rw (e, c, k) at h in
                let equal : made ≡ result = cc done in
                let hash = (eq_iff review.review_hash payload.review_hash).0 e in
                (
                  request,
                  (
                    p,
                    (
                      under,
                      (
                        sym hash
                            ∙ ap (λ r. r.review_hash) same
                            ∙ ap (λ x. review_hash digest x request) (sym under),
                        (
                          c,
                          (
                            k ∙ ap (λ (r : Applied). some r.call) equal,
                            (
                              sym (ap (λ (r : Applied). r.integration_id) equal)
                                  ∙ ap (λ (r : PolicyReview). r.integration_id) same,
                              sym (ap (λ (r : Applied). r.owner_user_id) equal),
                            ),
                          ),
                        ),
                      ),
                    ),
                  ),
                )
          ]
        ]
      ]

-- No change without a review: after any requests for reviews, if applying one makes a call of the
-- client, then the call is that of one of the requests, whose review has the id and the hash that
-- were given, the change was confirmed, and the client is that of the request's integration and
-- of the user who applies it. (`P` is any property of all the requests.)
pub apply_review-Reviewed :
    (digest : Json → String) (P : PolicyReviewCreateRequest → Type 0)
    (requests : List PolicyReviewCreateRequest) (owner_user_id id : String)
    (payload : PolicyReviewApplyRequest) (result : Applied)
    → All P requests
    → apply_review owner_user_id id payload (reviews_after digest requests []) ≡ applied result
    → WasReviewed digest P owner_user_id id payload result
unfolding apply_review
apply_review-Reviewed digest P requests owner_user_id id payload result h k =
    let reviews = reviews_after digest requests [] in
    let entries = reviews_after-Entries digest P requests [] h tt in
    elim (Option-cases (dict_get id reviews)) [
      | inl e ↦ cc (rw e at k)
      | inr (entry, e) ↦
          apply_stored-Reviewed digest P owner_user_id id payload entry result
            (dict_get-All (IsEntry digest P) id reviews entries e) (rw e at k)
    ]
