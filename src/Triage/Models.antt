-- ===== src/Triage/Models.antt =====
-- apps/api/app/soc/triage/models.py, and the alert families of engine.py.
use penguard.Prelude.{String, List, Option, Bool, ◌==◌, if◌then◌else◌}
use penguard.Prelude.Json.{Json, JsonFields}

pub data Family : Type 0 where
  network_scan denied_burst bruteforce suspicious_connection privileged_logon resource_pressure
        manual :
      Family

unfoldable pub family_text : Family → String
family_text network_scan = "network.scan"
family_text denied_burst = "network.denied_burst"
family_text bruteforce = "auth.bruteforce"
family_text suspicious_connection = "endpoint.suspicious_connection"
family_text privileged_logon = "identity.privileged_logon"
family_text resource_pressure = "fortigate.resource_pressure"
family_text manual = "manual.investigation"

-- ALERT_FAMILY_BY_RULE.get(rule_id, "manual.investigation")
unfoldable pub family_of : String → Family
family_of rule_id =
    if rule_id == "network_scan"
    then network_scan
    else if rule_id == "denied_traffic_burst"
    then denied_burst
    else if rule_id == "repeated_failed_login"
    then bruteforce
    else if rule_id == "suspicious_endpoint_connection"
    then suspicious_connection
    else if rule_id == "privileged_logon_unusual_host"
    then privileged_logon
    else if rule_id == "fortigate_resource_pressure"
    then resource_pressure
    else manual

pub data Confidence : Type 0 where
  low medium high : Confidence

pub data RiskLevel : Type 0 where
  low medium high : RiskLevel

pub data EvidenceType : Type 0 where
  threshold entity event : EvidenceType

pub record EvidenceItem : Type 0 where
  pub id : String
  pub type : EvidenceType
  pub label : String
  pub value : Json
  pub threshold : Option Json
  pub severity : String
  pub source : String

pub record TriageEntity : Type 0 where
  pub id : String
  pub kind : String
  pub label : String
  pub value : String
  pub source : String

pub record ImpactedAsset : Type 0 where
  pub id : String
  pub kind : String
  pub label : String
  pub value : String

-- The engine gives no subtechniques.
pub record MitreMapping : Type 0 where
  pub tactic_id : String
  pub tactic_name : String
  pub technique_id : String
  pub technique_name : String
  pub confidence : Confidence
  pub reason : String
  pub evidence_ids : List String

pub record ResponseCandidate : Type 0 where
  pub id : String
  pub type : String
  pub label : String
  pub description : String
  pub risk_level : RiskLevel
  pub requires_approval : Bool
  pub available_now : Bool
  pub provider_required : Option String
  pub reason : String
  pub parameters : JsonFields
  pub mapped_mitre_technique_ids : List String
  pub playbook_template_ids : List String

pub record PlaybookTemplateRecommendation : Type 0 where
  pub template_id : String
  pub label : String
  pub reason : String
  pub confidence : Confidence
  pub required_candidate_ids : List String
  pub parameters : JsonFields
  pub requires_approval : Bool

pub record MissingDataItem : Type 0 where
  pub id : String
  pub label : String
  pub reason : String

pub record TriageContext : Type 0 where
  pub incident_id : String
  pub rule_id : Option String
  pub alert_family : Family
  pub attack_type : String
  pub severity : String
  pub confidence : Confidence
  pub recommended_triage_level : String
  pub recommended_ticket_status : String
  pub summary : String
  pub evidence : List EvidenceItem
  pub entities : List TriageEntity
  pub impacted_assets : List ImpactedAsset
  pub mitre_mappings : List MitreMapping
  pub response_candidates : List ResponseCandidate
  pub playbook_templates : List PlaybookTemplateRecommendation
  pub missing_data : List MissingDataItem
  pub generated_at : String
