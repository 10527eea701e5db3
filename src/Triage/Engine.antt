-- ===== src/Triage/Engine.antt =====
-- apps/api/app/soc/triage/engine.py, `build_triage_context`. The time that the context carries is an
-- argument, as text.
pub mod References
pub mod Approval
use penguard.Prelude.{String, List, Option, none, some}
use penguard.Prelude.Json.{Json, JsonFields, str}
use penguard.Prelude.Values.{value_of, or_default, text_or_empty, text_of}
use penguard.Triage.Models.{Family, family_of, TriageContext}
use penguard.Triage.Read.{
  Texts, dict_or_empty, string_or_none, attack_type, confidence, recommended_triage_level,
  recommended_ticket_status,
}
use penguard.Triage.Evidence.{build_evidence, build_entities, build_impacted_assets}
use penguard.Triage.Mitre.{build_mitre_mappings}
use penguard.Triage.Candidates.{names_of, build_response_candidates}
use penguard.Triage.Templates.{build_playbook_templates}

-- rule_id or ""
abbrev pub or_empty : Option String → String
or_empty none = ""
or_empty (some text) = text

unfoldable pub build_triage_context : Texts → String → JsonFields → TriageContext
build_triage_context py generated_at incident =
    let attributes = dict_or_empty (value_of "attributes" incident) in
    let entities = dict_or_empty (value_of "entities" incident) in
    let rule_id = string_or_none (value_of "ruleId" incident) in
    let family = family_of (or_empty rule_id) in
    let evidence = build_evidence py family incident attributes entities in
    let names = names_of py attributes entities in
    let candidates = (build_response_candidates family names).0 in
    record {
      incident_id = text_or_empty py.builtins (value_of "id" incident);
      rule_id = rule_id;
      alert_family = family;
      attack_type = attack_type family rule_id attributes;
      severity =
          text_of py.builtins (or_default (value_of "severity" incident) (str "informational"));
      confidence = confidence py family attributes;
      recommended_triage_level = recommended_triage_level py.builtins incident;
      recommended_ticket_status = recommended_ticket_status incident;
      summary = text_of py.builtins (
          or_default (value_of "summary" incident)
            (or_default (value_of "title" incident) (str "")));
      evidence = evidence;
      entities = build_entities py attributes entities;
      impacted_assets = build_impacted_assets py attributes entities;
      mitre_mappings = build_mitre_mappings py family evidence attributes;
      response_candidates = candidates;
      playbook_templates = build_playbook_templates py family candidates names attributes;
      missing_data = (build_response_candidates family names).1;
      generated_at = generated_at;
    }
