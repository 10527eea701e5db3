-- ===== src/Policies.antt =====
-- apps/api/app/policies: reviews of firewall policies (models.py, fortigate_adapter.py) and the
-- choice of the adapter (service.py). The FortiGate client is not among this code: a review that is
-- applied gives the call that is made of it. `sha256` of the sorted JSON is the argument `digest`.
pub mod Texts
pub mod Reviewed
pub mod RoundTrip
use penguard.Prelude.{
  ℕ, zero, suc, String, concat, List, [], ◌∷◌, Bool, true, false, not, Option, none, some, ◌==◌,
  if◌then◌else◌,
}
use penguard.Prelude.Json.{Json, JsonItems, JsonFields, null, str, arr, obj, nil, cons, end, field}
use penguard.Prelude.Dicts.{dict_get, dict_set}
use penguard.Policies.Texts.{first_part, last_part, prefix, has_char}

pub data PolicyAction : Type 0 where
  create edit enable disable delete : PolicyAction

abbrev pub action_text : PolicyAction → String
action_text create = "create"
action_text edit = "edit"
action_text enable = "enable"
action_text disable = "disable"
action_text delete = "delete"

pub record PolicyReviewCreateRequest : Type 0 where
  pub provider_type : String
  pub integration_id : String
  pub action : PolicyAction
  pub policy_id : Option String
  pub payload : JsonFields

pub record PolicyReview : Type 0 where
  pub id : String
  pub integration_id : String
  pub policy_id : Option String
  pub action : PolicyAction
  pub status : String
  pub title : String
  pub before : JsonFields
  pub after : JsonFields
  pub diff : JsonItems
  pub warnings : JsonItems
  pub rollback : List String
  pub review_hash : String

pub record PolicyReviewApplyRequest : Type 0 where
  pub review_hash : String
  pub confirmed : Bool

-- KeyError, ValueError and PermissionError
pub data PolicyError : Type 0 where
  key_error value_error permission_error : String → PolicyError

-- What the client of the integration is asked to do.
pub data ClientCall : Type 0 where
  create_firewall_policy : JsonFields → ClientCall
  update_firewall_policy : String → JsonFields → ClientCall
  delete_firewall_policy : String → ClientCall

pub record Applied : Type 0 where
  pub id : String
  pub integration_id : String
  pub owner_user_id : String
  pub call : ClientCall

pub data Outcome : Type 0 where
  applied : Applied → Outcome
  failed : PolicyError → Outcome

-- _REVIEWS
abbrev pub Reviews : Type 0
Reviews = List (String × (PolicyReview × PolicyReviewCreateRequest))

abbrev or_null : Option String → Json
or_null none = null
or_null (some text) = str text

-- payload.model_dump(mode="json")
abbrev pub dumped : PolicyReviewCreateRequest → Json
dumped request = obj (
    field "provider_type" (str request.provider_type) (
      field "integration_id" (str request.integration_id) (
        field "action" (str (action_text request.action)) (
          field "policy_id" (or_null request.policy_id)
            (field "payload" (obj request.payload) end)))))

unfoldable pub review_id : (Json → String) → PolicyReviewCreateRequest → String
review_id digest request = concat "fortigate:" (prefix 12 (digest (dumped request)))

unfoldable pub review_hash : (Json → String) → String → PolicyReviewCreateRequest → String
review_hash digest id request =
    digest (obj (field "id" (str id) (field "payload" (dumped request) end)))

abbrev summary : String → JsonFields
summary text = field "summary" (str text) end

abbrev requested : PolicyReviewCreateRequest → String
requested request = concat (action_text request.action) " requested"

unfoldable pub review_of : (Json → String) → PolicyReviewCreateRequest → PolicyReview
unfolding review_id review_hash
review_of digest request = record {
  id = review_id digest request;
  integration_id = request.integration_id;
  policy_id = request.policy_id;
  action = request.action;
  status = "pending_review";
  title = concat (action_text request.action) " FortiGate policy";
  before = summary "current FortiGate policy state";
  after = summary (requested request);
  diff =
      cons
        (obj (
          field "field" (str "status") (
            field "before" (str "current FortiGate policy state") (
              field "after" (str (requested request))
                (field "risk" (str "Policy behavior changes") end)))))
        nil;
  warnings =
      cons
        (obj (
          field "severity" (str "high")
            (field "message" (str "This may modify an external/customer-owned policy.") end)))
        nil;
  rollback = "Run a new review restoring the previous FortiGate policy fields." ∷ [];
  review_hash = review_hash digest (review_id digest request) request;
}

unfoldable pub create_review :
    (Json → String) → PolicyReviewCreateRequest → Reviews → PolicyReview × Reviews
unfolding review_of dict_set
create_review digest request reviews = (
  review_of digest request,
  dict_set (review_id digest request) (review_of digest request, request) reviews,
)

-- _native_policy_id; `none` is the ValueError
unfoldable pub native_policy_id : Option String → Option String
native_policy_id none = none
native_policy_id (some policy_id) =
    if policy_id == "" then none else some (last_part b':' policy_id)

abbrev set_status : String → JsonFields
set_status status = field "status" (str status) end

abbrev update_call : Option String → JsonFields → Option ClientCall
update_call none payload = none
update_call (some native_id) payload = some (update_firewall_policy native_id payload)

abbrev delete_call : Option String → Option ClientCall
delete_call none = none
delete_call (some native_id) = some (delete_firewall_policy native_id)

-- The call of a request that has its policy's id, where it needs one.
unfoldable pub call_of : PolicyReviewCreateRequest → Option ClientCall
unfolding native_policy_id
call_of request = elim request.action [
  | create ↦ some (create_firewall_policy request.payload)
  | edit ↦ update_call (native_policy_id request.policy_id) request.payload
  | enable ↦ update_call (native_policy_id request.policy_id) (set_status "enable")
  | disable ↦ update_call (native_policy_id request.policy_id) (set_status "disable")
  | delete ↦ delete_call (native_policy_id request.policy_id)
]

abbrev finished : String → String → PolicyReview → Option ClientCall → Outcome
finished id owner_user_id review none = failed (value_error "policyId is required")
finished id owner_user_id review (some call) = applied (record {
  id = id;
  integration_id = review.integration_id;
  owner_user_id = owner_user_id;
  call = call;
})

abbrev pub apply_stored :
    String
    → String
    → PolicyReviewApplyRequest
    → Option (PolicyReview × PolicyReviewCreateRequest)
    → Outcome
apply_stored owner_user_id id payload none = failed (key_error "Policy review not found")
apply_stored owner_user_id id payload (some (review, request)) =
    if not (review.review_hash == payload.review_hash)
    then failed (value_error "Stale policy review")
    else if not payload.confirmed
    then failed (permission_error "Explicit confirmation is required")
    else finished id owner_user_id review (call_of request)

-- The reviews stay as they are.
unfoldable pub apply_review : String → String → PolicyReviewApplyRequest → Reviews → Outcome
apply_review owner_user_id id payload reviews =
    apply_stored owner_user_id id payload (dict_get id reviews)

-- The provider that `PolicyService.apply_review` asks for.
unfoldable pub provider_of : String → String
provider_of id = if has_char b':' id then first_part b':' id else "fortigate"

-- f"fortigate:{integration_id}:policy:{native_id}"
unfoldable pub row_id : String → String → String
row_id integration_id native_id =
    concat "fortigate:" (concat integration_id (concat ":policy:" native_id))
