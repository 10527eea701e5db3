-- ===== src/PoliciesTests.antt =====
-- Runs of the policy reviews (apps/api/app/policies) on concrete input, and their theorems there. The
-- digest is the same for all.
use penguard.Prelude.{String, List, [], ◌∷◌, ◌≡◌, refl, true, false, some}
use penguard.Prelude.Json.{Json, end}
use penguard.Prelude.Dicts.{dict_get, dict_set}
use penguard.Policies.{
  PolicyReviewCreateRequest, PolicyReviewApplyRequest, Applied, delete, delete_firewall_policy,
  applied, create_review, review_of, review_id, review_hash, call_of, native_policy_id,
  apply_review, provider_of, row_id,
}
use penguard.Policies.Texts.{has_char, last_part, prefix}
use penguard.Policies.Reviewed.{reviews_after, WasReviewed, apply_review-Reviewed}
use penguard.Policies.RoundTrip.{ids-read_back}

abbrev digest : Json → String
digest _ = "0123456789abcdef"

abbrev request : PolicyReviewCreateRequest
request = record {
  provider_type = "fortigate";
  integration_id = "fw";
  action = delete;
  policy_id = some "fortigate:fw:policy:7";
  payload = end;
}

abbrev confirmation : PolicyReviewApplyRequest
confirmation = record { review_hash = "0123456789abcdef"; confirmed = true }

abbrev deletion : Applied
deletion = record {
  id = "fortigate:0123456789ab";
  integration_id = "fw";
  owner_user_id = "ana";
  call = delete_firewall_policy "7";
}

abbrev requests : List PolicyReviewCreateRequest
requests = request ∷ []

abbrev IsRequest : PolicyReviewCreateRequest → Type 0
IsRequest other = other ≡ request

request-applied :
    apply_review "ana" "fortigate:0123456789ab" confirmation (reviews_after digest requests [])
    ≡ applied deletion
unfolding apply_review reviews_after create_review review_of review_id review_hash dict_get dict_set
    call_of native_policy_id last_part has_char prefix
request-applied = refl

apply_review-Reviewed_example :
    WasReviewed digest IsRequest "ana" "fortigate:0123456789ab" confirmation deletion
apply_review-Reviewed_example =
    apply_review-Reviewed digest IsRequest requests "ana" "fortigate:0123456789ab" confirmation
      deletion (refl, tt) request-applied

no_colon : has_char b':' "7" ≡ false
unfolding has_char
no_colon = refl

ids-read_back_example :
    (provider_of (review_id digest request) ≡ "fortigate")
    × (native_policy_id (some (row_id "fw" "7")) ≡ some "7")
ids-read_back_example = ids-read_back digest request "fw" "7" no_colon
