-- ===== src/Siem/Enrich/Flood.antt =====
-- apps/siem_kowalski/app/main.py: HTTP floods in allowed traffic.
use penguard.Prelude.{
  ℕ, ◌+◌, String, List, [], ◌∷◌, ◌++◌, Bool, true, false, not, ◌&&◌, ◌||◌, Option, none, some, ◌==◌,
  any, ltb, leb, if◌then◌else◌,
}
use penguard.Prelude.Json.{ℤ, pos, num, str, arr}
use penguard.Prelude.Values.{
  Builtins, json_eq, eqℤ, set_field, text_items, text_or_empty, or_default,
}
use penguard.Siem.Models.{SecurityEvent, reads}
use penguard.Siem.Rules.{coerce_number}
use penguard.Siem.Store.{SiemStore, list_recent_events}
use penguard.Siem.Enrich.{attribute, outside, id_list, positive_count}
use penguard.Siem.Enrich.Scans.{
  Flow, flow_of, is_forwarded_scan_action, same_network_flow, attribute_is, same_id,
}

abbrev pub port_of : Builtins → SecurityEvent → Option ℤ
port_of py event = coerce_number py (attribute "destinationPort" event)

abbrev pub same_port : Option ℤ → Option ℤ → Bool
same_port none none = true
same_port (some a) (some b) = eqℤ a b
same_port _ _ = false

abbrev is_web_port : Option ℤ → Bool
is_web_port none = false
is_web_port (some port) = any (eqℤ port) (pos 80 ∷ pos 443 ∷ pos 8080 ∷ pos 8443 ∷ [])

-- _is_http_flow
unfoldable pub is_http_flow : Builtins → SecurityEvent → Bool
is_http_flow py event =
    any (reads (text_or_empty py (attribute "service" event))) ("http" ∷ "https" ∷ [])
    || is_web_port (port_of py event)

unfoldable pub same_http_flow : Builtins → SecurityEvent → SecurityEvent → Bool
same_http_flow py left right =
    same_network_flow left right && same_port (port_of py left) (port_of py right)

unfoldable pub is_flood_of : Builtins → Flow → SecurityEvent → Bool
is_flood_of py flow previous =
    attribute_is "attackType" "http_flood" previous
    && attribute_is "ingestionMode" "fortigate_flow_inference" previous
    && json_eq (attribute "integrationId" previous) flow.integration_id
    && json_eq (attribute "sourceIp" previous) flow.source_ip
    && json_eq (attribute "destinationIp" previous) flow.destination_ip
    && same_port (port_of py previous) (some flow.destination_port)

unfoldable pub has_recent_http_flood_event : Builtins → Flow → SecurityEvent → SiemStore → Bool
has_recent_http_flood_event py flow event store =
    any (λ previous. not (outside 300000 event previous) && is_flood_of py flow previous)
      (list_recent_events (some "waf.dos") 50 store)

abbrev pub flood_counts : Builtins → SecurityEvent → SecurityEvent → Bool
flood_counts py event previous =
    not (same_id previous.id event.id)
    && not (outside 60000 event previous)
    && same_http_flow py event previous
    && is_forwarded_scan_action py previous

-- The loop over the recent events, which ends at a hundred.
unfoldable pub flood_events :
    Builtins → SecurityEvent → List SecurityEvent → ℕ → List String → ℕ × List String
flood_events py event [] count ids = (count, ids)
flood_events py event (previous ∷ rest) count ids =
    let skipped = flood_events py event rest count ids in
    let count' = count + positive_count (coerce_number py (attribute "count" previous)) in
    let ids' = ids ++ id_list previous.id in
    let later = flood_events py event rest count' ids' in
    if flood_counts py event previous
    then (if leb 100 count' then (count', ids') else later)
    else skipped

unfoldable pub flood_event : Flow → SecurityEvent → ℕ → List String → SecurityEvent
flood_event flow event count related_event_ids = record event {
  event_type = "waf.dos";
  severity = "critical";
  attributes = set_field "ingestionMode" (str "fortigate_flow_inference") (
      set_field "relatedEventIds" (arr (text_items related_event_ids)) (
        set_field "floodWindowSeconds" (num (pos 60)) (
          set_field "count" (num (pos count)) (
            set_field "action" (or_default (attribute "action" event) (str "allow")) (
              set_field "attackType" (str "http_flood") (
                set_field "destinationPort" (num flow.destination_port) (
                  set_field "destinationIp" flow.destination_ip (
                    set_field "sourceIp" flow.source_ip
                      (set_field "integrationId" flow.integration_id event.attributes)))))))));
}

abbrev pub if_flood : Flow → SecurityEvent → ℕ × List String → SecurityEvent
if_flood flow event (count, ids) = if ltb count 100 then event else flood_event flow event count ids

abbrev pub flood_of : Builtins → Option Flow → SecurityEvent → SiemStore → SecurityEvent
flood_of py none event store = event
flood_of py (some flow) event store =
    if has_recent_http_flood_event py flow event store
    then event
    else if_flood flow event (
        flood_events py event (list_recent_events (some "network.event") 500 store) 1
          (id_list event.id))

unfoldable pub enrich_http_flood : Builtins → SecurityEvent → SiemStore → SecurityEvent
enrich_http_flood py event store =
    if event.event_type == "network.event"
      && is_forwarded_scan_action py event
      && is_http_flow py event
    then flood_of py (flow_of py event) event store
    else event
