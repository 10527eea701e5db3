-- ===== src/Triage/Templates.antt =====
-- apps/api/app/soc/triage/engine.py, `_build_playbook_templates`.
use penguard.Prelude.{
  String, List, [], ◌∷◌, Bool, true, false, ◌&&◌, ◌==◌, any, contains, if◌then◌else◌,
}
use penguard.Prelude.Json.{JsonFields, arr, nil, num, str, end, field}
use penguard.Prelude.Values.{value_of, or_default}
use penguard.Triage.Models.{
  Family, network_scan, denied_burst, bruteforce, suspicious_connection, privileged_logon,
  resource_pressure, manual, ResponseCandidate, PlaybookTemplateRecommendation, Confidence,
}
use penguard.Triage.Read.{Texts, confidence, failed_login_count}
use penguard.Triage.Candidates.{Names, block_id}

-- id in {candidate.id for candidate in candidates if candidate.available_now}
abbrev pub is_available : String → List ResponseCandidate → Bool
is_available id =
    any (λ (candidate : ResponseCandidate). candidate.available_now && candidate.id == id)

unfoldable pub required : List ResponseCandidate → List String
required candidates =
    if is_available block_id candidates then block_id ∷ [] else "case.add_note" ∷ []

abbrev with_names : Names → JsonFields → JsonFields
with_names names rest = field "sourceIp" (str names.source_ip) (
    field "destinationIp" (str names.destination_ip)
      (field "integrationId" (str names.integration_id) rest))

unfoldable pub scan_templates :
    Texts
    → Family
    → List ResponseCandidate
    → Names
    → JsonFields
    → List PlaybookTemplateRecommendation
unfolding required confidence
scan_templates py family candidates names attributes =
    record {
      template_id = "pb_network_scan_triage";
      label = "Network scan triage";
      reason = "Network scan evidence is present and maps to service discovery.";
      confidence = confidence py family attributes;
      required_candidate_ids = required candidates;
      parameters = with_names names (
          field "destinationPorts" (or_default (value_of "destinationPorts" attributes) (arr nil))
            end);
      requires_approval = contains block_id (required candidates);
    }
    ∷ record {
      template_id = "pb_fortigate_temp_block";
      label = "FortiGate temporary block";
      reason = "A scoped FortiGate response can contain scan traffic after approval.";
      confidence = Confidence.medium;
      required_candidate_ids = required candidates;
      parameters = with_names names end;
      requires_approval = true;
    }
    ∷ []

unfoldable pub build_playbook_templates :
    Texts
    → Family
    → List ResponseCandidate
    → Names
    → JsonFields
    → List PlaybookTemplateRecommendation
unfolding scan_templates
build_playbook_templates py network_scan candidates names attributes =
    scan_templates py network_scan candidates names attributes
build_playbook_templates py denied_burst candidates names attributes =
    scan_templates py denied_burst candidates names attributes
build_playbook_templates py bruteforce candidates names attributes =
    record {
      template_id = "pb_auth_bruteforce_triage";
      label = "Authentication brute-force triage";
      reason = "Failed-login threshold evidence is present.";
      confidence = confidence py bruteforce attributes;
      required_candidate_ids = "identity.review_account" ∷ [];
      parameters = field "sourceIp" (str names.source_ip) (
          field "username" (str names.username) (
            field "failedLoginCount" (num (failed_login_count py attributes))
              (field "integrationId" (str names.integration_id) end)));
      requires_approval = false;
    }
    ∷ []
build_playbook_templates py suspicious_connection candidates names attributes =
    record {
      template_id = "pb_endpoint_connection_triage";
      label = "Endpoint connection triage";
      reason = "Endpoint network telemetry needs endpoint context review.";
      confidence = confidence py suspicious_connection attributes;
      required_candidate_ids = "case.add_note" ∷ [];
      parameters = end;
      requires_approval = false;
    }
    ∷ []
build_playbook_templates py resource_pressure candidates names attributes =
    record {
      template_id = "pb_resource_pressure_review";
      label = "Resource pressure review";
      reason = "Operational resource pressure should be reviewed before security response.";
      confidence = Confidence.medium;
      required_candidate_ids = "case.add_note" ∷ [];
      parameters = end;
      requires_approval = false;
    }
    ∷ []
build_playbook_templates py privileged_logon candidates names attributes = []
build_playbook_templates py manual candidates names attributes = []
