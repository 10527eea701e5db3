-- ===== src/Triage/Evidence.antt =====
-- apps/api/app/soc/triage/engine.py: the evidence, the entities and the assets of an incident.
use penguard.Prelude.{String, concat, List, [], ◌∷◌, ◌++◌, Option, none, some, if◌then◌else◌}
use penguard.Prelude.Json.{ℤ, pos, Json, JsonFields, null, num, str, obj, end, field}
use penguard.Prelude.Values.{value_of, or_default, text_of, eqℤ}
use penguard.Triage.Models.{
  Family, network_scan, denied_burst, bruteforce, suspicious_connection, privileged_logon,
  resource_pressure, manual, family_text, EvidenceItem, EvidenceType, threshold, entity, event,
  TriageEntity, ImpactedAsset,
}
use penguard.Triage.Read.{
  Texts, named, is_set, int_or_none, unique_port_count, failed_login_count, many_ports,
  evidence_severity,
}

abbrev siem : String
siem = "siem_kowalski"

abbrev gte : Json → Json
gte value = obj (field "operator" (str "gte") (field "value" value end))

abbrev or_null : Option ℤ → Json
or_null none = null
or_null (some n) = num n

abbrev item : String → EvidenceType → String → Json → Option Json → String → EvidenceItem
item id type label value limit severity = record {
  id = id;
  type = type;
  label = label;
  value = value;
  threshold = limit;
  severity = severity;
  source = siem;
}

unfoldable pub rule_evidence : Texts → Family → JsonFields → EvidenceItem
rule_evidence py family incident =
    item "ev_detection_rule" event "Detection rule"
      (str
        (text_of py.builtins (or_default (value_of "ruleId" incident) (str (family_text family)))))
      none (evidence_severity py.builtins (value_of "severity" incident))

abbrev port_threshold : Texts → JsonFields → Json
port_threshold py attributes = obj (
    field "operator" (str "gte") (
      field "value" (num (pos 20)) (
        field "windowSeconds" (or_null (int_or_none py (value_of "scanWindowSeconds" attributes)))
          end)))

abbrev or_none_zero : Option ℤ → ℤ
or_none_zero none = pos 0
or_none_zero (some n) = n

-- elif attributes.get("count") is not None
abbrev count_evidence : Texts → Json → List EvidenceItem
count_evidence py null = []
count_evidence py value =
    item "ev_denied_event_count" threshold "Denied event count"
      (num (or_none_zero (int_or_none py value))) (some (gte (num (pos 20)))) "medium"
    ∷ []

unfoldable pub port_evidence : Texts → JsonFields → List EvidenceItem
port_evidence py attributes =
    if eqℤ (unique_port_count py attributes) (pos 0)
    then count_evidence py (value_of "count" attributes)
    else item "ev_unique_destination_ports" threshold "Unique destination ports"
        (num (unique_port_count py attributes)) (some (port_threshold py attributes))
        (if many_ports py attributes then "high" else "medium")
      ∷ []

unfoldable pub family_evidence : Texts → Family → JsonFields → List EvidenceItem
unfolding port_evidence
family_evidence py network_scan attributes = port_evidence py attributes
family_evidence py denied_burst attributes = port_evidence py attributes
family_evidence py bruteforce attributes =
    item "ev_failed_login_count" threshold "Failed login count"
      (num (failed_login_count py attributes)) (some (gte (num (pos 3)))) "high"
    ∷ []
family_evidence py suspicious_connection attributes = []
family_evidence py privileged_logon attributes = []
family_evidence py resource_pressure attributes = []
family_evidence py manual attributes = []

abbrev entity_item : String → String → String → List EvidenceItem
entity_item key label value =
    if is_set value
    then item (concat "ev_entity_" key) entity label (str value) none "informational" ∷ []
    else []

-- The loop over the keys of entities.
unfoldable pub entity_evidence :
    Texts → List (String × String) → JsonFields → JsonFields → List EvidenceItem
entity_evidence py [] attributes entities = []
entity_evidence py ((key, label) ∷ keys) attributes entities =
    entity_item key label (named py key attributes entities)
    ++ entity_evidence py keys attributes entities

abbrev entity_keys : List (String × String)
entity_keys =
    ("sourceIp", "Source IP")
    ∷ ("destinationIp", "Destination IP")
    ∷ ("username", "Username")
    ∷ ("hostname", "Hostname")
    ∷ ("endpointId", "Endpoint ID")
    ∷ []

unfoldable pub build_evidence :
    Texts → Family → JsonFields → JsonFields → JsonFields → List EvidenceItem
unfolding rule_evidence family_evidence entity_evidence
build_evidence py family incident attributes entities =
    rule_evidence py family incident
    ∷ (family_evidence py family attributes ++ entity_evidence py entity_keys attributes entities)

abbrev entity_of : String → String → String → List TriageEntity
entity_of kind label value =
    if is_set value
    then record {
      id = concat kind (concat ":" value);
      kind = kind;
      label = label;
      value = value;
      source = siem;
    }
      ∷ []
    else []

unfoldable pub build_entities : Texts → JsonFields → JsonFields → List TriageEntity
build_entities py attributes entities =
    entity_of "ip" "Source IP" (named py "sourceIp" attributes entities)
    ++ (entity_of "ip" "Destination IP" (named py "destinationIp" attributes entities)
        ++ (entity_of "user" "Username" (named py "username" attributes entities)
            ++ (entity_of "host" "Hostname" (named py "hostname" attributes entities)
                ++ (entity_of "endpoint" "Endpoint ID" (named py "endpointId" attributes entities)
                    ++ entity_of "provider" "Integration"
                        (named py "integrationId" attributes entities)))))

abbrev asset_of : String → String → String → List ImpactedAsset
asset_of kind label value =
    if is_set value
    then record { id = concat kind (concat ":" value); kind = kind; label = label; value = value }
      ∷ []
    else []

unfoldable pub build_impacted_assets : Texts → JsonFields → JsonFields → List ImpactedAsset
build_impacted_assets py attributes entities =
    asset_of "ip" "Destination IP" (named py "destinationIp" attributes entities)
    ++ (asset_of "host" "Hostname" (named py "hostname" attributes entities)
        ++ asset_of "endpoint" "Endpoint ID" (named py "endpointId" attributes entities))
