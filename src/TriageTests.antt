-- ===== src/TriageTests.antt =====
-- Runs of the triage engine (apps/api/app/soc/triage) on concrete input, and its theorems there. No
-- text stands for a number, nothing is stripped, and a value that is no text reads as "?".
use penguard.Prelude.{String, List, [], ◌∷◌, ◌≡◌, refl, none, map, All}
use penguard.Prelude.Json.{pos, JsonFields, num, str, obj, end, field}
use penguard.Prelude.Json.{get_field}
use penguard.Prelude.Values.{value_of}
use penguard.Triage.Evidence.{
  build_evidence, family_evidence, port_evidence, rule_evidence, entity_evidence,
}
use penguard.Triage.Mitre.{build_mitre_mappings}
use penguard.Triage.Templates.{build_playbook_templates, scan_templates, required}
use penguard.Triage.Models.{
  family_of, denied_burst, MitreMapping, Confidence, PlaybookTemplateRecommendation,
}
use penguard.Triage.Read.{
  Texts, string_or_none, first_string, confidence, unique_port_count, int_or_none,
}
use penguard.Triage.Candidates.{
  Names, build_response_candidates, watchlist, family_candidates, scan_candidates,
}
use penguard.Triage.Engine.{build_triage_context}
use penguard.Triage.Engine.References.{IsGrounded, context-Grounded}
use penguard.Triage.Engine.Approval.{
  IsGuarded, IsCovered, response_candidates-Guarded, context-Covered,
}

abbrev py : Texts
py = record {
  builtins = record { str_of = λ _. "?"; float_of = λ _. none };
  strip = λ text. text;
  int_of = λ _. none;
}

abbrev burst : JsonFields
burst = field "id" (str "inc_1") (
    field "ruleId" (str "denied_traffic_burst") (
      field "severity" (str "high") (
        field "attributes"
          (obj (
            field "sourceIp" (str "10.0.0.1") (
              field "destinationIp" (str "10.0.0.2") (
                field "integrationId" (str "fw")
                  (field "uniqueDestinationPortCount" (num (pos 25)) end)))))
          end)))

abbrev names : Names
names = record { source_ip = "10.0.0.1"; destination_ip = ""; username = ""; integration_id = "fw" }

context-Grounded_example :
    All
      (IsGrounded (build_triage_context py "now" burst).evidence)
      (build_triage_context py "now" burst).mitre_mappings
context-Grounded_example = context-Grounded py "now" burst

context-Covered_example :
    All
      (IsCovered (build_triage_context py "now" burst).response_candidates)
      (build_triage_context py "now" burst).playbook_templates
context-Covered_example = context-Covered py "now" burst

response_candidates-Guarded_example :
    All (IsGuarded names) (build_response_candidates denied_burst names).0
response_candidates-Guarded_example = response_candidates-Guarded denied_burst names

abbrev required_of : PlaybookTemplateRecommendation → List String
required_of template = template.required_candidate_ids

-- The block is among the candidates, and both templates need it.
burst-blocked :
    map required_of (build_triage_context py "now" burst).playbook_templates
    ≡ ("fortigate.temporary_source_destination_block" ∷ [])
      ∷ ("fortigate.temporary_source_destination_block" ∷ [])
      ∷ []
unfolding build_triage_context family_of string_or_none value_of get_field build_playbook_templates
    scan_templates required build_response_candidates watchlist family_candidates scan_candidates
    first_string
burst-blocked = refl

abbrev few_ports : JsonFields
few_ports =
    field "ruleId" (str "network_scan")
      (field "attributes" (obj (field "uniqueDestinationPortCount" (num (pos 5)) end)) end)

abbrev confidence_of : MitreMapping → Confidence
confidence_of mapping = mapping.confidence

-- Five ports: the mapping's confidence is high, the context's is medium.
few_ports-confidences :
    (map confidence_of (build_triage_context py "now" few_ports).mitre_mappings
      ≡ Confidence.high ∷ [])
    × ((build_triage_context py "now" few_ports).confidence ≡ Confidence.medium)
unfolding build_triage_context family_of string_or_none value_of get_field build_mitre_mappings
    confidence build_evidence family_evidence port_evidence rule_evidence entity_evidence
    unique_port_count int_or_none first_string
few_ports-confidences = (refl, refl)
