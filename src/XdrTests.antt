-- ===== src/XdrTests.antt =====
-- Runs of the endpoint service (apps/xdr_rico/app) on a concrete store, and its theorems at inputs
-- that meet their hypotheses. The text itself stands for its digest.
use penguard.Prelude.{
  map, String-cases, inl, inr, arith, ℕ, String, List, [], ◌∷◌, ◌≡◌, refl, false, Option, none,
  some, ◌⊎◌,
}
use penguard.Prelude.Tables.{IsUnique, select, update, insert}
use penguard.Http.{ok, is_ok}
use penguard.Xdr.Models.{
  Endpoint, new_endpoint, unknown, EnrollmentRecord, Action, collect_now, queued, result_completed,
  is_queued,
}
use penguard.Xdr.Store.{
  list_endpoints, list_timeline, action_key, claimed_action, XdrStore, ActionRow,
  get_enrollment_by_token_hash, claim_enrollment_endpoint, claim_next_action, claim_first,
  queued_rows, update_action_result,
}
use penguard.Xdr.Enrollment.{
  require_enrollment_token_for_endpoint, bearer_token, bind_claimed, claim_for, partition_space,
  pair_enrollment, pair_claimed,
}
use penguard.Prelude.Texts.{lower_codes, same_codes}
use penguard.Xdr.Actions.{claim_endpoint_action, complete_endpoint_action}
use penguard.Xdr.Enrollment.Binding.{IsKeyed, Authorized, adds, Change-IsKeyed, require-Outcome}
use penguard.Xdr.Actions.Handout.{Taken, claim_next-Taken}
use penguard.Xdr.Actions.Queue.{Oldest, waiting, claim_next-Oldest}
use penguard.Xdr.Correlation.{
  CorrelationRequest, EndpointContextItem, correlate_endpoint_context, context_items,
  endpoint_context_item, matches, match_field, entity_strings, same_user, same_text, principal_name,
  after_last, before_first, has_ip,
}
use penguard.Prelude.Json.{str}
use penguard.Xdr.Service.ActionIds.{HasUniqueActions, serve-HasUniqueActions}
use penguard.Xdr.Service.{Request, pair, claim, complete, serve, handle}
use penguard.Xdr.Service.Trace.{serve-bound, one_endpoint}

abbrev digest : String → String
digest text = text

abbrev laptop : String
laptop = "laptop"

abbrev fresh : EnrollmentRecord
fresh = record {
  id = "enr_1";
  display_name = none;
  hostname_hint = none;
  created_at = 3;
  token_hash = "xdr_enroll_a";
  claimed_endpoint_id = none;
}

abbrev bound : EnrollmentRecord
bound = record fresh { claimed_endpoint_id = some "laptop" }

abbrev waiting_row : String → ℕ → ActionRow
waiting_row id at_time = record {
  id = id;
  endpoint_id = "laptop";
  status = queued;
  created_at = at_time;
  payload = record {
    id = id;
    endpoint_id = "laptop";
    kind = collect_now;
    status = queued;
    parameters = [];
    created_at = at_time;
    claimed_at = none;
    completed_at = none;
    result = [];
  };
}

abbrev store_with : EnrollmentRecord → XdrStore
store_with e = record {
  enrollments =
      record { id = e.id; token_hash = e.token_hash; created_at = e.created_at; payload = e } ∷ [];
  endpoints = [];
  timeline = [];
  actions = waiting_row "act_2" 8 ∷ waiting_row "act_1" 6 ∷ [];
}

abbrev token : Option String
token = some "Bearer xdr_enroll_a"

abbrev requests : List Request
requests =
    claim "laptop" token 9
    ∷ claim "other" token 10
    ∷ complete "laptop" "act_1" result_completed [] token 11
    ∷ pair "xdr_enroll_a"
    ∷ []

abbrev nothing : XdrStore
nothing = record {
  enrollments = [];
  endpoints = [];
  timeline = [];
  actions = (store_with fresh).actions;
}

nothing-IsKeyed : IsKeyed nothing
unfolding select
nothing-IsKeyed = record { found = λ h row. cc }

store_with-IsKeyed : IsKeyed (store_with fresh)
unfolding select insert
store_with-IsKeyed = Change-IsKeyed nothing nothing-IsKeyed (
    adds (record { id = "enr_1"; token_hash = "xdr_enroll_a"; created_at = 3; payload = fresh })
      refl refl refl)

store_with_bound-IsKeyed : IsKeyed (store_with bound)
unfolding select insert
store_with_bound-IsKeyed = Change-IsKeyed nothing nothing-IsKeyed (
    adds (record { id = "enr_1"; token_hash = "xdr_enroll_a"; created_at = 3; payload = bound })
      refl refl refl)

first_use :
    require_enrollment_token_for_endpoint digest token "laptop" (store_with fresh)
    ≡ (ok bound, store_with bound)
unfolding require_enrollment_token_for_endpoint bearer_token bind_claimed claim_for partition_space
    lower_codes same_codes get_enrollment_by_token_hash claim_enrollment_endpoint select update
first_use = refl

abbrev served : XdrStore
served = serve digest requests (store_with bound)

later_use : require_enrollment_token_for_endpoint digest token "laptop" served ≡ (ok bound, served)
unfolding require_enrollment_token_for_endpoint bearer_token bind_claimed claim_for partition_space
    lower_codes same_codes get_enrollment_by_token_hash claim_enrollment_endpoint select update
    serve handle pair_enrollment pair_claimed claim_endpoint_action complete_endpoint_action
    claim_next_action claim_first queued_rows is_queued update_action_result
later_use = refl

fresh_known : get_enrollment_by_token_hash "xdr_enroll_a" (store_with bound) ≡ some bound
unfolding get_enrollment_by_token_hash select
fresh_known = refl

require-Outcome_example :
    ((text : String) × (bearer_token token ≡ ok text)
      × Authorized
          (digest text)
          "laptop"
          (store_with fresh)
          (require_enrollment_token_for_endpoint digest token "laptop" (store_with fresh)).1)
    ⊎ (((require_enrollment_token_for_endpoint digest token "laptop" (store_with fresh)).1
          ≡ store_with fresh)
        × (is_ok (require_enrollment_token_for_endpoint digest token "laptop" (store_with fresh)).0
            ≡ false))
require-Outcome_example =
    require-Outcome digest token "laptop" (store_with fresh) store_with-IsKeyed

claim_next-Oldest_example :
    (((claim_next_action "laptop" 9 (store_with fresh)).0 ≡ none)
      × (waiting "laptop" (store_with fresh).actions ≡ 0))
    ⊎ ((a : Action) × ((claim_next_action "laptop" 9 (store_with fresh)).0 ≡ some a)
        × Oldest "laptop" 9 (store_with fresh) a)
claim_next-Oldest_example = claim_next-Oldest "laptop" 9 (store_with fresh)

serve-bound_example :
    get_enrollment_by_token_hash "xdr_enroll_a" (serve digest requests (store_with bound))
    ≡ some bound
serve-bound_example =
    serve-bound digest requests (store_with bound) "xdr_enroll_a" "laptop" bound
      (store_with_bound-IsKeyed) fresh_known refl

one_endpoint_example : laptop ≡ laptop
one_endpoint_example =
    one_endpoint digest token laptop laptop requests (store_with fresh) (store_with bound) served
      bound bound store_with-IsKeyed first_use later_use

actions_once : IsUnique action_key (store_with bound).actions
actions_once k = elim (String-cases "act_2" k) [
  | inl e ↦ rw (← e) (omega arith)
  | inr other ↦ ground (arith, other)
]

abbrev oldest : Action
oldest = claimed_action 9 (waiting_row "act_1" 6).payload

claim_first_one : (claim_next_action "laptop" 9 (store_with bound)).0 ≡ some oldest
unfolding claim_next_action claim_first queued_rows is_queued
claim_first_one = refl

claim_next-Taken_example :
    Taken "laptop" 9 (store_with bound) oldest (claim_next_action "laptop" 9 (store_with bound)).1
claim_next-Taken_example =
    claim_next-Taken "laptop" 9 (store_with bound) oldest actions_once claim_first_one

abbrev incident : CorrelationRequest
incident = record {
  entities = ("hostname", str "WS-1") ∷ ("userName", str "CORP\\ana") ∷ [];
  limit = 5;
  timeline_limit = 5;
}

abbrev workstation : Endpoint
workstation = record (new_endpoint "laptop") {
  hostname = some "ws-1";
  current_user = some "ana@corp";
}

abbrev with_workstation : XdrStore
with_workstation = record (store_with bound) {
  endpoints =
      record {
        id = "laptop";
        hostname = some "ws-1";
        current_user = some "ana@corp";
        health = unknown;
        last_seen_at = none;
        payload = workstation;
      }
      ∷ [];
}

-- The host gives 30 points and the user 20.
workstation_score :
    map
      (λ (item : EndpointContextItem). item.score)
      (correlate_endpoint_context incident with_workstation)
    ≡ 50 ∷ []
unfolding correlate_endpoint_context context_items endpoint_context_item matches match_field
    entity_strings same_user same_text principal_name after_last before_first has_ip list_endpoints
    list_timeline lower_codes same_codes
workstation_score = refl

serve-HasUniqueActions_example : HasUniqueActions (serve digest requests (store_with bound))
serve-HasUniqueActions_example =
    serve-HasUniqueActions digest requests (store_with bound) actions_once
