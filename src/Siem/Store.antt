-- ===== src/Siem/Store.antt =====
-- apps/siem_kowalski/app/store.py: the two tables, each as the list of its rows in the order of
-- `row_id`. The payload column holds the record that pydantic dumps and loads back; an event is
-- stored under an id that it has.
pub mod Growth
use mathlib.Core.List.{reverse}
use mathlib.Core.Option
use penguard.Prelude.{
  ℕ, String, List, [], Bool, true, Option, none, some, ◌==◌, map, filter, take, length, leb,
  sort_by, contains,
}
use penguard.Prelude.Tables.{select, update, insert}
use penguard.Siem.Models.{SecurityEvent, Incident, IncidentStatus, status_text}

pub record EventRow : Type 0 where
  pub id : String
  pub event_type : String
  pub severity : String
  pub occurred_at : ℕ
  pub payload : SecurityEvent

pub record IncidentRow : Type 0 where
  pub id : String
  pub rule_id : Option String
  pub severity : String
  pub status : IncidentStatus
  pub created_at : ℕ
  pub payload : Incident

pub record SiemStore : Type 0 where
  pub events : List EventRow
  pub incidents : List IncidentRow

abbrev pub event_key : EventRow → String
event_key row = row.id

abbrev pub incident_key : IncidentRow → String
incident_key row = row.id

abbrev pub event_row : String → SecurityEvent → EventRow
event_row id payload = record {
  id = id;
  event_type = payload.event_type;
  severity = payload.severity;
  occurred_at = payload.occurred_at;
  payload = payload;
}

abbrev pub incident_row : Incident → IncidentRow
incident_row payload = record {
  id = payload.id;
  rule_id = payload.rule_id;
  severity = payload.severity;
  status = payload.status;
  created_at = payload.created_at;
  payload = payload;
}

-- `none` is the integrity error of an id that is taken.
unfoldable pub add_event : String → SecurityEvent → SiemStore → Option SiemStore
add_event id payload store =
    Option.map (λ rows. record store { events = rows })
      (insert event_key (event_row id payload) store.events)

abbrev has_type : Option String → EventRow → Bool
has_type none row = true
has_type (some event_type) row = row.event_type == event_type

abbrev pub limited {ℓ} : {A : Type ℓ} → Option ℕ → List A → List A
limited none rows = rows
limited (some n) rows = take n rows

-- The latest rows first.
unfoldable pub list_events : Option ℕ → Option String → SiemStore → List SecurityEvent
list_events limit event_type store =
    map (λ (row : EventRow). row.payload)
      (limited limit (filter (has_type event_type) (reverse store.events)))

abbrev later_first : SecurityEvent → SecurityEvent → Bool
later_first a b = leb b.occurred_at a.occurred_at

-- The latest times first; the sort is stable. The source compares the times as they are written.
unfoldable pub list_recent_events : Option String → ℕ → SiemStore → List SecurityEvent
list_recent_events event_type limit store =
    sort_by later_first (list_events (some limit) event_type store)

unfoldable pub list_events_by_ids : List String → SiemStore → List SecurityEvent
list_events_by_ids ids store =
    map (λ (row : EventRow). row.payload)
      (filter (λ (row : EventRow). contains row.id ids) store.events)

unfoldable pub count_events : SiemStore → ℕ
count_events store = length store.events

unfoldable pub add_incident : Incident → SiemStore → Option SiemStore
add_incident payload store =
    Option.map (λ rows. record store { incidents = rows })
      (insert incident_key (incident_row payload) store.incidents)

abbrev pub same_status : IncidentStatus → IncidentStatus → Bool
same_status a b = status_text a == status_text b

abbrev has_status : Option IncidentStatus → IncidentRow → Bool
has_status none row = true
has_status (some status) row = same_status row.status status

abbrev has_severity : Option String → IncidentRow → Bool
has_severity none row = true
has_severity (some severity) row = row.severity == severity

unfoldable pub list_incidents : Option IncidentStatus → Option String → SiemStore → List Incident
list_incidents status severity store =
    map (λ (row : IncidentRow). row.payload)
      (filter (has_severity severity) (filter (has_status status) (reverse store.incidents)))

unfoldable pub count_incidents : SiemStore → ℕ
count_incidents store = length store.incidents

unfoldable pub get_incident : String → SiemStore → Option Incident
get_incident incident_id store =
    Option.map (λ (row : IncidentRow). row.payload)
      (select incident_key incident_id store.incidents)

abbrev pub written : Incident → IncidentRow → IncidentRow
written payload row = record row {
  severity = payload.severity;
  status = payload.status;
  payload = payload;
}

unfoldable pub update_incident : Incident → SiemStore → SiemStore
update_incident payload store = record store {
  incidents = update incident_key payload.id (written payload) store.incidents;
}

unfoldable pub reset : SiemStore → (ℕ × ℕ) × SiemStore
reset store =
    ((length store.events, length store.incidents), record { events = []; incidents = [] })
