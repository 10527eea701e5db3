-- ===== src/Siem/Detect.antt =====
-- apps/siem_kowalski/app/main.py, `_detect_incident`: the incident that an event raises. What
-- `uuid4` and the clock give is the argument `fresh`.
use penguard.Prelude.{
  ℕ, String, concat, List, [], ◌∷◌, Bool, true, false, not, ◌&&◌, ◌||◌, Option, none, some, ◌==◌,
  any, find, if◌then◌else◌,
}
use penguard.Prelude.Json.{ℤ, Json, JsonItems, JsonFields, str, arr, obj, nil, cons, end, field}
use penguard.Prelude.Values.{Builtins, truthy, json_eq, set_field, value_of, or_default}
use penguard.Siem.Models.{
  SecurityEvent, Incident, TimelineItem, IncidentStatus, opened, new, triage_from_severity,
}
use penguard.Siem.Rules.{
  RuleCondition, RuleOperator, DetectionRule, gte, equals, exists, contains, detection_rules,
  matches_rule, coerce_number, is_given,
}
use penguard.Siem.Store.{SiemStore, list_incidents}
use penguard.Siem.Enrich.{attribute, attribute_or_entity}
use penguard.Siem.Enrich.Flood.{port_of, same_port}

pub record Fresh : Type 0 where
  pub event_hex : String
  pub incident_hex : String
  pub item_hex : ℕ → String
  pub now : ℕ

abbrev pub timeline_item : Fresh → ℕ → Option IncidentStatus → String → TimelineItem
timeline_item fresh index status message = record {
  id = concat "tl_" (fresh.item_hex index);
  status = status;
  message = message;
  occurred_at = fresh.now;
}

abbrev is_gte : RuleOperator → Bool
is_gte gte = true
is_gte equals = false
is_gte exists = false
is_gte contains = false

abbrev threshold : RuleCondition → Json
threshold condition = obj (
    field "path" (str condition.path)
      (field "operator" (str "gte") (field "value" condition.value end)))

unfoldable pub thresholds : List RuleCondition → JsonItems
thresholds [] = nil
thresholds (condition ∷ rest) =
    let later = thresholds rest in
    if is_gte condition.operator then cons (threshold condition) later else later

abbrev pub copied_keys : List String
copied_keys =
    "demoRunId" ∷ "attackType" ∷ "count" ∷ "users" ∷ "attempts" ∷ "message" ∷ "action" ∷ "subtype"
    ∷ "policy" ∷ "method" ∷ "url" ∷ "rawType" ∷ "rawSubtype" ∷ "ingestionMode" ∷ "integrationId"
    ∷ "sourceIp" ∷ "destinationIp" ∷ "destinationPort" ∷ "destinationPorts"
    ∷ "uniqueDestinationPortCount" ∷ "scanWindowSeconds" ∷ "policyId" ∷ "service"
    ∷ "relatedEventIds" ∷ []

-- The loop over the keys.
unfoldable pub copy_fields : List String → JsonFields → JsonFields → JsonFields
copy_fields [] source attributes = attributes
copy_fields (key ∷ keys) source attributes = copy_fields keys source (
    if is_given (value_of key source)
    then set_field key (value_of key source) attributes
    else attributes)

unfoldable pub incident_attributes : SecurityEvent → DetectionRule → JsonFields
incident_attributes event rule = copy_fields copied_keys event.attributes (
    field "source" (or_default (attribute "source" event) (str event.source)) (
      field "detection"
        (obj (
          field "ruleId" (str rule.id) (
            field "title" (str rule.title) (
              field "summary" (str rule.summary) (
                field "matchedEventType" (str event.event_type) (
                  field "observedCount" (attribute "count" event)
                    (field "thresholds" (arr (thresholds rule.conditions)) end)))))))
        end))

-- The body of the loop over the open incidents.
unfoldable pub is_same_flood : Builtins → SecurityEvent → Incident → Bool
is_same_flood py event incident =
    json_eq (value_of "attackType" incident.attributes) (str "http_flood")
    && (not (truthy (attribute_or_entity "integrationId" event))
        || json_eq (value_of "integrationId" incident.attributes)
            (attribute_or_entity "integrationId" event))
    && json_eq (value_of "sourceIp" incident.attributes) (attribute_or_entity "sourceIp" event)
    && json_eq (value_of "destinationIp" incident.attributes)
        (attribute_or_entity "destinationIp" event)
    && same_port (coerce_number py (value_of "destinationPort" incident.attributes))
        (port_of py event)

abbrev is_number : Option ℤ → Bool
is_number none = false
is_number (some _) = true

abbrev has_rule : String → Incident → Bool
has_rule id incident = elim incident.rule_id [ none ↦ false | some rule_id ↦ rule_id == id ]

unfoldable pub has_open_duplicate_incident :
    Builtins → SecurityEvent → DetectionRule → SiemStore → Bool
has_open_duplicate_incident py event rule store =
    rule.id == "fortiweb_dos_activity"
    && json_eq (attribute "attackType" event) (str "http_flood")
    && truthy (attribute_or_entity "sourceIp" event)
    && truthy (attribute_or_entity "destinationIp" event)
    && is_number (port_of py event)
    && any (λ incident. has_rule rule.id incident && is_same_flood py event incident)
        (list_incidents (some opened) none store)

-- rule.severity or event.severity
abbrev severity_or : Option String → String → String
severity_or none other = other
severity_or (some severity) other = if severity == "" then other else severity

unfoldable pub incident_of : Fresh → SecurityEvent → String → DetectionRule → Incident
incident_of fresh event event_id rule = record {
  id = concat "inc_" fresh.incident_hex;
  rule_id = some rule.id;
  title = rule.title;
  severity = severity_or rule.severity event.severity;
  status = opened;
  origin = field "kind" (str event.source) end;
  attributes = incident_attributes event rule;
  entities = event.entities;
  summary = rule.summary;
  created_at = fresh.now;
  timeline =
      timeline_item fresh 0 none (concat "Incident created from event " (concat event_id ".")) ∷ [];
  event_ids = event_id ∷ [];
  triage_level = triage_from_severity (severity_or rule.severity event.severity);
  ticket_status = new;
  assignee_user_id = none;
  ai_analysis_id = none;
}

abbrev pub raised_by :
    Builtins → Fresh → SecurityEvent → String → Option DetectionRule → SiemStore → Option Incident
raised_by py fresh event event_id none store = none
raised_by py fresh event event_id (some rule) store =
    if has_open_duplicate_incident py event rule store
    then none
    else some (incident_of fresh event event_id rule)

-- The first rule that matches counts.
unfoldable pub detect_incident : Builtins → Fresh → SecurityEvent → SiemStore → Option Incident
detect_incident py fresh event store = elim event.id [
  | none ↦ none
  | some event_id ↦
      raised_by py fresh event event_id (find (matches_rule py event) detection_rules) store
]
