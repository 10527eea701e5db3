-- ===== src/Siem/Enrich/Scans.antt =====
-- apps/siem_kowalski/app/main.py: port scans in allowed and in denied traffic. The source has the
-- loop and the search for a recent scan twice, for the two kinds of traffic.
use penguard.Prelude.{
  String, List, [], ◌∷◌, ◌++◌, Bool, true, false, not, ◌&&◌, Option, none, some, ◌==◌, any, all,
  length, ltb, sort_by, if◌then◌else◌,
}
use penguard.Prelude.Json.{ℤ, pos, Json, num, str, arr, get_field}
use penguard.Prelude.Values.{
  Builtins, truthy, json_eq, eqℤ, leℤ, set_field, text_items, int_items, text_of,
}
use penguard.Siem.Models.{SecurityEvent, reads}
use penguard.Siem.Rules.{coerce_number}
use penguard.Siem.Store.{SiemStore, list_recent_events}
use penguard.Siem.Enrich.{attribute, attribute_or_entity, outside, id_list}

-- What identifies a flow; an event lacks one if a value is missing or false.
pub record Flow : Type 0 where
  pub integration_id : Json
  pub source_ip : Json
  pub destination_ip : Json
  pub destination_port : ℤ

abbrev flow_with : SecurityEvent → Option ℤ → Option Flow
flow_with event none = none
flow_with event (some port) =
    if truthy (attribute_or_entity "integrationId" event)
      && truthy (attribute_or_entity "sourceIp" event)
      && truthy (attribute_or_entity "destinationIp" event)
    then some (record {
      integration_id = attribute_or_entity "integrationId" event;
      source_ip = attribute_or_entity "sourceIp" event;
      destination_ip = attribute_or_entity "destinationIp" event;
      destination_port = port;
    })
    else none

unfoldable pub flow_of : Builtins → SecurityEvent → Option Flow
flow_of py event = flow_with event (coerce_number py (attribute "destinationPort" event))

-- str(event.attributes.get("action", ""))
abbrev pub action_text : Builtins → Option Json → String
action_text py none = ""
action_text py (some value) = text_of py value

unfoldable pub is_forwarded_scan_action : Builtins → SecurityEvent → Bool
is_forwarded_scan_action py event =
    any (reads (action_text py (get_field "action" event.attributes)))
      ("accept" ∷ "allow" ∷ "allowed" ∷ "close" ∷ "client-rst" ∷ "server-rst" ∷ "timeout" ∷ [])

unfoldable pub same_network_flow : SecurityEvent → SecurityEvent → Bool
same_network_flow left right =
    all (λ key. json_eq (attribute_or_entity key left) (attribute_or_entity key right))
      ("integrationId" ∷ "sourceIp" ∷ "destinationIp" ∷ [])

-- attributes.get(key) == text
abbrev pub attribute_is : String → String → SecurityEvent → Bool
attribute_is key text event = json_eq (attribute key event) (str text)

unfoldable pub is_scan_of : String → Flow → SecurityEvent → Bool
is_scan_of attack flow previous =
    attribute_is "attackType" attack previous
    && json_eq (attribute "integrationId" previous) flow.integration_id
    && json_eq (attribute "sourceIp" previous) flow.source_ip
    && json_eq (attribute "destinationIp" previous) flow.destination_ip

-- _has_recent_allowed_scan_event, _has_recent_denied_scan_event
unfoldable pub has_recent_scan_event : String → Flow → SecurityEvent → SiemStore → Bool
has_recent_scan_event attack flow event store =
    any (λ previous. not (outside 60000 event previous) && is_scan_of attack flow previous)
      (list_recent_events (some "network.scan") 50 store)

abbrev pub same_id : Option String → Option String → Bool
same_id none none = true
same_id (some a) (some b) = a == b
same_id _ _ = false

-- ports.add(port)
abbrev pub add_port : ℤ → List ℤ → List ℤ
add_port port ports = if any (eqℤ port) ports then ports else ports ++ port ∷ []

abbrev pub add_event_port : Option ℤ → SecurityEvent → List ℤ × List String → List ℤ × List String
add_event_port none previous seen = seen
add_event_port (some port) previous (ports, ids) = (add_port port ports, ids ++ id_list previous.id)

abbrev pub counts : (SecurityEvent → Bool) → SecurityEvent → SecurityEvent → Bool
counts passes event previous =
    not (same_id previous.id event.id)
    && not (outside 60000 event previous)
    && same_network_flow event previous
    && passes previous

-- The loop over the recent events: the ports, each once, and the ids of the events.
unfoldable pub scan_ports :
    Builtins
    → (SecurityEvent → Bool)
    → SecurityEvent
    → List SecurityEvent
    → List ℤ × List String
    → List ℤ × List String
scan_ports py passes event [] seen = seen
scan_ports py passes event (previous ∷ rest) seen = scan_ports py passes event rest (
    if counts passes event previous
    then add_event_port (coerce_number py (attribute "destinationPort" previous)) previous seen
    else seen)

unfoldable pub scan_event : String → Flow → SecurityEvent → List ℤ → List String → SecurityEvent
scan_event attack flow event ports related_event_ids = record event {
  event_type = "network.scan";
  severity = "high";
  attributes = set_field "relatedEventIds" (arr (text_items related_event_ids)) (
      set_field "scanWindowSeconds" (num (pos 60)) (
        set_field "uniqueDestinationPortCount" (num (pos (length ports))) (
          set_field "destinationPorts" (arr (int_items (sort_by leℤ ports))) (
            set_field "attackType" (str attack) (
              set_field "destinationIp" flow.destination_ip (
                set_field "sourceIp" flow.source_ip
                  (set_field "integrationId" flow.integration_id event.attributes)))))));
}

abbrev pub if_scan : String → Flow → SecurityEvent → List ℤ × List String → SecurityEvent
if_scan attack flow event (ports, ids) =
    if ltb (length ports) 20 then event else scan_event attack flow event ports ids

abbrev pub enrich_flow :
    Builtins
    → String
    → String
    → (SecurityEvent → Bool)
    → Option Flow
    → SecurityEvent
    → SiemStore
    → SecurityEvent
enrich_flow py attack event_type passes none event store = event
enrich_flow py attack event_type passes (some flow) event store =
    if has_recent_scan_event attack flow event store
    then event
    else if_scan attack flow event (
        scan_ports py passes event (list_recent_events (some event_type) 250 store)
          (flow.destination_port ∷ [], id_list event.id))

unfoldable pub enrich_allowed_port_scan : Builtins → SecurityEvent → SiemStore → SecurityEvent
enrich_allowed_port_scan py event store =
    if event.event_type == "network.event" && is_forwarded_scan_action py event
    then enrich_flow py "allowed_port_scan" "network.event" (is_forwarded_scan_action py)
        (flow_of py event) event store
    else event

unfoldable pub enrich_denied_port_scan : Builtins → SecurityEvent → SiemStore → SecurityEvent
enrich_denied_port_scan py event store =
    if event.event_type == "network.deny"
    then enrich_flow py "denied_port_scan" "network.deny" (λ _. true) (flow_of py event) event store
    else event
