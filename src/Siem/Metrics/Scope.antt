-- ===== src/Siem/Metrics/Scope.antt =====
-- apps/siem_kowalski/app/main.py: which incidents an integration or a provider has.
use penguard.Prelude.{
  String, List, [], ◌∷◌, ◌++◌, Bool, true, false, not, ◌&&◌, ◌||◌, Option, none, some, ◌==◌, filter,
  any, find, contains,
}
use penguard.Prelude.Json.{Json, str}
use penguard.Prelude.Texts.{lower}
use penguard.Prelude.Values.{Builtins, value_of, json_eq, text_or_empty}
use penguard.Siem.Models.{SecurityEvent, Incident}
use penguard.Siem.Store.{SiemStore, list_events_by_ids}

pub data ProviderType : Type 0 where
  fortigate fortiweb xdr_rico agent_private manual demo : ProviderType

-- EXECUTIVE_PROVIDER_SOURCES
unfoldable pub provider_sources : ProviderType → List String
provider_sources fortigate = "fortigate" ∷ "fortigate.syslog" ∷ "fortigate.api" ∷ []
provider_sources fortiweb = "fortiweb" ∷ "fortiweb.telemetry" ∷ "fortiweb.api" ∷ []
provider_sources xdr_rico = "xdr_rico" ∷ "xdr_rico.agent_private" ∷ []
provider_sources agent_private = "agent_private" ∷ "xdr_rico.agent_private" ∷ []
provider_sources manual = "manual" ∷ "manual.event" ∷ []
provider_sources demo = "demo" ∷ "demo.replay" ∷ "simulator" ∷ []

abbrev has_id : String → SecurityEvent → Bool
has_id id event = elim event.id [ none ↦ false | some own ↦ own == id ]

unfoldable pub all_event_ids : List Incident → List String
all_event_ids [] = []
all_event_ids (incident ∷ incidents) =
    filter (λ id. not (id == "")) incident.event_ids ++ all_event_ids incidents

-- The events that the incidents name; the source keys them by their id, which is unique.
unfoldable pub executive_events : List Incident → SiemStore → List SecurityEvent
executive_events incidents store = list_events_by_ids (all_event_ids incidents) store

-- [events_by_id[event_id] for event_id in event_ids if event_id in events_by_id]
unfoldable pub events_named : List String → List SecurityEvent → List SecurityEvent
events_named [] events = []
events_named (id ∷ ids) events =
    let rest = events_named ids events in
    elim (find (has_id id) events) [ none ↦ rest | some event ↦ event ∷ rest ]

abbrev pub related_events : Incident → List SecurityEvent → List SecurityEvent
related_events incident events = events_named incident.event_ids events

abbrev is_integration : String → Json → Bool
is_integration integration_id value = json_eq value (str integration_id)

unfoldable pub matches_integration : String → List SecurityEvent → Incident → Bool
matches_integration integration_id events incident =
    is_integration integration_id (value_of "integrationId" incident.entities)
    || is_integration integration_id (value_of "integrationId" incident.attributes)
    || is_integration integration_id (value_of "integrationId" incident.origin)
    || any
        (λ (event : SecurityEvent).
          is_integration integration_id (value_of "integrationId" event.entities)
          || is_integration integration_id (value_of "integrationId" event.attributes))
        (related_events incident events)

unfoldable pub event_sources : List SecurityEvent → List Json
event_sources [] = []
event_sources (event ∷ events) =
    str event.source ∷ value_of "source" event.attributes ∷ event_sources events

unfoldable pub incident_sources : Incident → List SecurityEvent → List Json
incident_sources incident events =
    value_of "kind" incident.origin
    ∷ value_of "source" incident.attributes
    ∷ event_sources (related_events incident events)

unfoldable pub matches_provider : Builtins → ProviderType → List SecurityEvent → Incident → Bool
matches_provider py provider events incident =
    any (λ source. contains (lower (text_or_empty py source)) (provider_sources provider))
      (incident_sources incident events)

abbrev integration_passes : Option String → List SecurityEvent → Incident → Bool
integration_passes none events incident = true
integration_passes (some integration_id) events incident =
    matches_integration integration_id events incident

abbrev provider_passes : Builtins → Option ProviderType → List SecurityEvent → Incident → Bool
provider_passes py none events incident = true
provider_passes py (some provider) events incident = matches_provider py provider events incident

-- With neither, both tests pass and the list stays as it is.
unfoldable pub filter_incidents_for_scope :
    Builtins
    → Option String
    → Option ProviderType
    → List SecurityEvent
    → List Incident
    → List Incident
filter_incidents_for_scope py integration_id provider events incidents =
    filter
      (λ incident.
        integration_passes integration_id events incident
        && provider_passes py provider events incident)
      incidents
