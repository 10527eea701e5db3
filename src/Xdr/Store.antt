-- ===== src/Xdr/Store.antt =====
-- apps/xdr_rico/app/store.py: the four tables and the statements of `XdrStore`, each table as the
-- list of its rows in the order of `row_id` (endpoints: of insertion). The payload column holds the
-- record that pydantic dumps and loads back.
use mathlib.Core.List.{reverse}
use mathlib.Core.Option
use Prim.Native.String.{compare}
use text.Mathlib.Text.{is_le}
use penguard.Prelude.{
  ℕ, String, List, [], ◌∷◌, ◌++◌, Bool, true, false, ◌&&◌, ◌||◌, Option, none, some, ◌==◌, map,
  filter, take, sorted_by, sort_by, ltb, eqb, if◌then◌else◌,
}
use penguard.Prelude.Tables.{select, update, delete, insert, taken}
use penguard.Xdr.Models.{
  EnrollmentRecord, Endpoint, TimelineItem, Action, ActionStatus, Attributes, EventType, Health,
  claimed, is_queued,
}

pub record EnrollmentRow : Type 0 where
  pub id : String
  pub token_hash : String
  pub created_at : ℕ
  pub payload : EnrollmentRecord

pub record EndpointRow : Type 0 where
  pub id : String
  pub hostname : Option String
  pub current_user : Option String
  pub health : Health
  pub last_seen_at : Option ℕ
  pub payload : Endpoint

pub record TimelineRow : Type 0 where
  pub id : String
  pub endpoint_id : String
  pub event_type : EventType
  pub occurred_at : ℕ
  pub payload : TimelineItem

pub record ActionRow : Type 0 where
  pub id : String
  pub endpoint_id : String
  pub status : ActionStatus
  pub created_at : ℕ
  pub payload : Action

pub record XdrStore : Type 0 where
  pub enrollments : List EnrollmentRow
  pub endpoints : List EndpointRow
  pub timeline : List TimelineRow
  pub actions : List ActionRow

abbrev pub enrollment_key : EnrollmentRow → String
enrollment_key row = row.id

abbrev pub hash_key : EnrollmentRow → String
hash_key row = row.token_hash

abbrev endpoint_key : EndpointRow → String
endpoint_key row = row.id

abbrev timeline_key : TimelineRow → String
timeline_key row = row.id

abbrev timeline_endpoint : TimelineRow → String
timeline_endpoint row = row.endpoint_id

abbrev pub action_key : ActionRow → String
action_key row = row.id

abbrev pub action_endpoint : ActionRow → String
action_endpoint row = row.endpoint_id

-- Both the id and the token hash are unique; `none` is the integrity error.
unfoldable pub add_enrollment : EnrollmentRecord → String → ℕ → XdrStore → Option XdrStore
add_enrollment payload token_hash created_at store =
    if taken hash_key token_hash store.enrollments
    then none
    else Option.map (λ rows. record store { enrollments = rows })
        (insert enrollment_key
          (record {
            id = payload.id;
            token_hash = token_hash;
            created_at = created_at;
            payload = payload;
          })
          store.enrollments)

unfoldable pub get_enrollment_by_token_hash : String → XdrStore → Option EnrollmentRecord
get_enrollment_by_token_hash hashed store =
    Option.map (λ (row : EnrollmentRow). row.payload) (select hash_key hashed store.enrollments)

abbrev pub claim_row : String → EnrollmentRow → EnrollmentRow
claim_row endpoint_id row = record row {
  payload = record row.payload { claimed_endpoint_id = some endpoint_id };
}

-- The payload after the update, or none where no enrollment has the id.
unfoldable pub claim_enrollment_endpoint :
    String → String → XdrStore → Option EnrollmentRecord × XdrStore
claim_enrollment_endpoint enrollment_id endpoint_id store =
    elim (select enrollment_key enrollment_id store.enrollments) [
      | none ↦ (none, store)
      | some row ↦ (
        some (record row.payload { claimed_endpoint_id = some endpoint_id }),
        record store {
          enrollments =
              update enrollment_key enrollment_id (claim_row endpoint_id) store.enrollments;
        },
      )
    ]

unfoldable pub upsert_endpoint : Endpoint → XdrStore → XdrStore
upsert_endpoint endpoint store = record store {
  endpoints =
      delete endpoint_key endpoint.id store.endpoints
      ++ record {
        id = endpoint.id;
        hostname = endpoint.hostname;
        current_user = endpoint.current_user;
        health = endpoint.health;
        last_seen_at = endpoint.last_seen_at;
        payload = endpoint;
      }
        ∷ [];
}

-- order_by(last_seen_at.desc().nullslast(), id.asc())
abbrev seen_before : Option ℕ → Option ℕ → Bool
seen_before (some a) (some b) = ltb b a
seen_before (some a) none = true
seen_before none _ = false

abbrev same_time : Option ℕ → Option ℕ → Bool
same_time (some a) (some b) = eqb a b
same_time none none = true
same_time _ _ = false

abbrev listed_before : EndpointRow → EndpointRow → Bool
listed_before a b =
    seen_before a.last_seen_at b.last_seen_at
    || (same_time a.last_seen_at b.last_seen_at && is_le (compare a.id b.id))

unfoldable pub list_endpoints : XdrStore → List Endpoint
list_endpoints store =
    map (λ (row : EndpointRow). row.payload) (sort_by listed_before store.endpoints)

unfoldable pub get_endpoint : String → XdrStore → Option Endpoint
get_endpoint endpoint_id store =
    Option.map (λ (row : EndpointRow). row.payload)
      (select endpoint_key endpoint_id store.endpoints)

unfoldable pub delete_endpoint : String → XdrStore → XdrStore
delete_endpoint endpoint_id store = record store {
  actions = delete action_endpoint endpoint_id store.actions;
  timeline = delete timeline_endpoint endpoint_id store.timeline;
  endpoints = delete endpoint_key endpoint_id store.endpoints;
}

unfoldable pub add_timeline_item : TimelineItem → XdrStore → Option XdrStore
add_timeline_item item store =
    Option.map (λ rows. record store { timeline = rows })
      (insert timeline_key
        (record {
          id = item.id;
          endpoint_id = item.endpoint_id;
          event_type = item.event_type;
          occurred_at = item.occurred_at;
          payload = item;
        })
        store.timeline)

-- The rows of one endpoint, newest first, and of those of one time the later row first.
unfoldable pub list_timeline : String → Option ℕ → XdrStore → List TimelineItem
list_timeline endpoint_id limit store =
    let rows =
      map (λ (row : TimelineRow). row.payload)
        (reverse (
          sorted_by (λ (row : TimelineRow). row.occurred_at)
            (filter (λ row. timeline_endpoint row == endpoint_id) store.timeline))) in
    elim limit [ none ↦ rows | some n ↦ take n rows ]

unfoldable pub add_action : Action → XdrStore → Option XdrStore
add_action action store =
    Option.map (λ rows. record store { actions = rows })
      (insert action_key
        (record {
          id = action.id;
          endpoint_id = action.endpoint_id;
          status = action.status;
          created_at = action.created_at;
          payload = action;
        })
        store.actions)

unfoldable pub list_actions : String → XdrStore → List Action
list_actions endpoint_id store =
    map (λ (row : ActionRow). row.payload)
      (reverse (
        sorted_by (λ (row : ActionRow). row.created_at)
          (filter (λ row. action_endpoint row == endpoint_id) store.actions)))

abbrev pub is_next : String → ActionRow → Bool
is_next endpoint_id row = row.endpoint_id == endpoint_id && is_queued row.status

-- The queued rows of the endpoint, oldest first, and of those of one time the earlier row first.
unfoldable pub queued_rows : String → List ActionRow → List ActionRow
queued_rows endpoint_id rows =
    sorted_by (λ (row : ActionRow). row.created_at) (filter (is_next endpoint_id) rows)

abbrev pub claimed_action : ℕ → Action → Action
claimed_action claimed_at action = record action { status = claimed; claimed_at = some claimed_at }

unfoldable pub claim_first : ℕ → List ActionRow → XdrStore → Option Action × XdrStore
claim_first claimed_at [] store = (none, store)
claim_first claimed_at (row ∷ _) store = (
  some (claimed_action claimed_at row.payload),
  record store {
    actions =
        update action_key row.id
          (λ r. record r { status = claimed; payload = claimed_action claimed_at row.payload })
          store.actions;
  },
)

unfoldable pub claim_next_action : String → ℕ → XdrStore → Option Action × XdrStore
unfolding claim_first
claim_next_action endpoint_id claimed_at store =
    claim_first claimed_at (queued_rows endpoint_id store.actions) store

abbrev pub finished_action : ActionStatus → Attributes → ℕ → Action → Action
finished_action status result completed_at action = record action {
  status = status;
  completed_at = some completed_at;
  result = result;
}

unfoldable pub update_action_result :
    String → String → ActionStatus → Attributes → ℕ → XdrStore → Option Action × XdrStore
update_action_result endpoint_id action_id status result completed_at store =
    elim (select action_key action_id store.actions) [
      | none ↦ (none, store)
      | some row ↦
          let updated = finished_action status result completed_at row.payload in
          if row.payload.endpoint_id == endpoint_id
          then (
            some updated,
            record store {
              actions =
                  update action_key action_id (λ r. record r { status = status; payload = updated })
                    store.actions;
            },
          )
          else (none, store)
    ]
