-- ===== src/Siem/Enrich.antt =====
-- apps/siem_kowalski/app/main.py, `_enrich_failed_login_burst`, and what all enrichments read of an
-- event.
pub mod Scans
pub mod Flood
pub mod Ports
use penguard.Prelude.{
  ℕ, suc, ◌+◌, String, List, [], ◌∷◌, ◌++◌, Bool, true, false, not, ◌&&◌, ◌||◌, Option, none, some,
  ◌==◌, any, all, ltb, leb, if◌then◌else◌,
}
use penguard.Prelude.Json.{ℤ, pos, negsuc, Json, JsonFields, num, str, arr}
use penguard.Prelude.Values.{
  Builtins, truthy, value_of, or_default, json_eq, set_field, text_items, text_of,
}
use penguard.Siem.Models.{SecurityEvent, reads}
use penguard.Siem.Rules.{coerce_number}
use penguard.Siem.Store.{SiemStore, list_events}

abbrev pub attribute : String → SecurityEvent → Json
attribute key event = value_of key event.attributes

abbrev pub entity : String → SecurityEvent → Json
entity key event = value_of key event.entities

-- event.attributes.get(key) or event.entities.get(key)
abbrev pub attribute_or_entity : String → SecurityEvent → Json
attribute_or_entity key event = or_default (attribute key event) (entity key event)

-- event.entities.get(key) or event.attributes.get(key)
abbrev pub entity_or_attribute : String → SecurityEvent → Json
entity_or_attribute key event = or_default (entity key event) (attribute key event)

-- previous.occurred_at < event.occurred_at - length or previous.occurred_at > event.occurred_at
unfoldable pub outside : ℕ → SecurityEvent → SecurityEvent → Bool
outside length event previous =
    ltb (previous.occurred_at + length) event.occurred_at
    || ltb event.occurred_at previous.occurred_at

-- [event.id] if event.id else []
abbrev pub id_list : Option String → List String
id_list none = []
id_list (some id) = if id == "" then [] else id ∷ []

-- The count of a number: at least 1.
abbrev pub positive_count : Option ℤ → ℕ
positive_count (some (pos (suc n))) = suc n
positive_count _ = 1

unfoldable pub failed_login_event_count : Builtins → SecurityEvent → ℕ
failed_login_event_count py event = positive_count (coerce_number py (attribute "count" event))

abbrev differs : Json → Json → Bool
differs left right = truthy left && truthy right && not (json_eq left right)

unfoldable pub same_auth_subject : SecurityEvent → SecurityEvent → Bool
same_auth_subject left right =
    all (λ key. not (differs (entity_or_attribute key left) (entity_or_attribute key right)))
      ("integrationId" ∷ "sourceIp" ∷ "user" ∷ "deviceName" ∷ [])

unfoldable pub failed_login_severity : SecurityEvent → ℕ → String
failed_login_severity event count =
    if event.severity == "critical" || event.severity == "high"
    then event.severity
    else if leb 3 count
    then "high"
    else event.severity

abbrev with_ids : SecurityEvent → List String → JsonFields → JsonFields
with_ids event [] attributes = attributes
with_ids event (first ∷ rest) attributes =
    set_field "aggregatedEventIds" (arr (text_items ((first ∷ rest) ++ id_list event.id)))
      attributes

unfoldable pub mark_brute_force : SecurityEvent → ℕ → List String → SecurityEvent
mark_brute_force event count previous_event_ids = record event {
  severity = failed_login_severity event count;
  attributes = with_ids event previous_event_ids (
      set_field "attackType" (or_default (attribute "attackType" event) (str "brute_force"))
        (set_field "count" (num (pos count)) event.attributes));
}

-- The loop over the earlier failed logins: the total, and the ids that it counts.
unfoldable pub failed_logins :
    Builtins → SecurityEvent → List SecurityEvent → ℕ → List String → ℕ × List String
failed_logins py event [] total ids = (total, ids)
failed_logins py event (previous ∷ rest) total ids =
    let skipped = failed_logins py event rest total ids in
    let total' = total + failed_login_event_count py previous in
    let ids' = ids ++ id_list previous.id in
    let later = failed_logins py event rest total' ids' in
    if outside 300000 event previous || not (same_auth_subject event previous)
    then skipped
    else if leb 3 total'
    then (total', ids')
    else later

abbrev if_enough : SecurityEvent → ℕ × List String → SecurityEvent
if_enough event (total, ids) = if ltb total 3 then event else mark_brute_force event total ids

unfoldable pub enrich_failed_login_burst : Builtins → SecurityEvent → SiemStore → SecurityEvent
enrich_failed_login_burst py event store =
    let count = failed_login_event_count py event in
    if not (event.event_type == "auth.failed_login")
    then event
    else if leb 3 count
    then mark_brute_force event count []
    else if_enough event
        (failed_logins py event (list_events (some 50) (some "auth.failed_login") store) count [])
