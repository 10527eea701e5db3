-- ===== src/Triage/Mitre.antt =====
-- apps/api/app/soc/triage/engine.py, `_build_mitre_mappings`.
use penguard.Prelude.{String, List, [], ◌∷◌, Bool, ◌==◌, any, if◌then◌else◌}
use penguard.Prelude.Json.{JsonFields}
use penguard.Prelude.Values.{truthy, value_of}
use penguard.Triage.Models.{
  Family, network_scan, denied_burst, bruteforce, suspicious_connection, privileged_logon,
  resource_pressure, manual, EvidenceItem, MitreMapping, Confidence,
}
use penguard.Triage.Read.{Texts, many_ports, many_logins, high_or_medium}

-- id in {item.id for item in evidence}
abbrev pub has_evidence : String → List EvidenceItem → Bool
has_evidence id = any (λ (item : EvidenceItem). item.id == id)

abbrev pub discovery : Confidence → String → List String → MitreMapping
discovery confidence reason evidence_ids = record {
  tactic_id = "TA0007";
  tactic_name = "Discovery";
  technique_id = "T1046";
  technique_name = "Network Service Discovery";
  confidence = confidence;
  reason = reason;
  evidence_ids = evidence_ids;
}

abbrev reconnaissance : List String → MitreMapping
reconnaissance evidence_ids = record {
  tactic_id = "TA0043";
  tactic_name = "Reconnaissance";
  technique_id = "T1595";
  technique_name = "Active Scanning";
  confidence = Confidence.medium;
  reason = "Denied traffic burst may indicate scanning but can include benign noise.";
  evidence_ids = evidence_ids;
}

-- The id, where the evidence has it.
abbrev or_rule : String → List EvidenceItem → List String
or_rule id evidence = if has_evidence id evidence then id ∷ [] else "ev_detection_rule" ∷ []

abbrev scan_mapping : List EvidenceItem → MitreMapping
scan_mapping evidence =
    if has_evidence "ev_unique_destination_ports" evidence
    then discovery Confidence.high "Unique destination port evidence crossed the scan threshold."
        ("ev_unique_destination_ports" ∷ [])
    else discovery Confidence.medium
        "Network scan rule matched without complete port-count evidence." ("ev_detection_rule" ∷ [])

unfoldable pub build_mitre_mappings :
    Texts → Family → List EvidenceItem → JsonFields → List MitreMapping
build_mitre_mappings py network_scan evidence attributes = scan_mapping evidence ∷ []
build_mitre_mappings py denied_burst evidence attributes =
    (if many_ports py attributes
      then discovery Confidence.high "Denied burst also includes unique destination port evidence."
          ("ev_unique_destination_ports" ∷ [])
      else reconnaissance (or_rule "ev_denied_event_count" evidence))
    ∷ []
build_mitre_mappings py bruteforce evidence attributes =
    record {
      tactic_id = "TA0006";
      tactic_name = "Credential Access";
      technique_id = "T1110";
      technique_name = "Brute Force";
      confidence = high_or_medium (many_logins py attributes);
      reason = "Failed login count crossed the brute-force threshold.";
      evidence_ids = "ev_failed_login_count" ∷ [];
    }
    ∷ []
build_mitre_mappings py suspicious_connection evidence attributes =
    record {
      tactic_id = "TA0011";
      tactic_name = "Command and Control";
      technique_id = "T1071";
      technique_name = "Application Layer Protocol";
      confidence =
          if truthy (value_of "protocol" attributes) then Confidence.medium else Confidence.low;
      reason = "Suspicious connection needs process or protocol evidence for stronger confidence.";
      evidence_ids = "ev_detection_rule" ∷ [];
    }
    ∷ []
build_mitre_mappings py privileged_logon evidence attributes =
    record {
      tactic_id = "TA0006";
      tactic_name = "Credential Access";
      technique_id = "T1078";
      technique_name = "Valid Accounts";
      confidence = Confidence.medium;
      reason = "Privileged logon from unusual context is suspicious but not proof of compromise.";
      evidence_ids = "ev_detection_rule" ∷ [];
    }
    ∷ []
build_mitre_mappings py resource_pressure evidence attributes = []
build_mitre_mappings py manual evidence attributes = []
