-- ===== src/Triage/Candidates.antt =====
-- apps/api/app/soc/triage/engine.py, `_build_response_candidates` and `_fortigate_candidates`.
use penguard.Prelude.{
  String, List, [], ◌∷◌, ◌++◌, Bool, true, false, ◌&&◌, ◌||◌, none, some, if◌then◌else◌,
}
use penguard.Prelude.Json.{JsonFields, str, end, field}
use penguard.Triage.Models.{
  Family, network_scan, denied_burst, bruteforce, suspicious_connection, privileged_logon,
  resource_pressure, manual, ResponseCandidate, MissingDataItem, RiskLevel,
}
use penguard.Triage.Read.{Texts, named, is_set}

-- The texts that the candidates are built from.
pub record Names : Type 0 where
  pub source_ip : String
  pub destination_ip : String
  pub username : String
  pub integration_id : String

abbrev pub names_of : Texts → JsonFields → JsonFields → Names
names_of py attributes entities = record {
  source_ip = named py "sourceIp" attributes entities;
  destination_ip = named py "destinationIp" attributes entities;
  username = named py "username" attributes entities;
  integration_id = named py "integrationId" attributes entities;
}

abbrev pub case_note : ResponseCandidate
case_note = record {
  id = "case.add_note";
  type = "case";
  label = "Add case note";
  description = "Record analyst context on the ticket timeline.";
  risk_level = RiskLevel.low;
  requires_approval = false;
  available_now = true;
  provider_required = none;
  reason = "Case notes are always available.";
  parameters = end;
  mapped_mitre_technique_ids = [];
  playbook_template_ids = [];
}

abbrev pub escalation : ResponseCandidate
escalation = record {
  id = "ticket.escalate_tier";
  type = "ticket";
  label = "Escalate ticket tier";
  description = "Move the ticket to a stricter triage tier.";
  risk_level = RiskLevel.low;
  requires_approval = false;
  available_now = true;
  provider_required = none;
  reason = "Ticket triage updates are available in Penguard.";
  parameters = end;
  mapped_mitre_technique_ids = [];
  playbook_template_ids = [];
}

abbrev pub watched : Names → ResponseCandidate
watched names = record {
  id = "entity.add_watchlist";
  type = "case";
  label = "Add entity watchlist note";
  description = "Track the entity for analyst follow-up.";
  risk_level = RiskLevel.low;
  requires_approval = false;
  available_now = true;
  provider_required = none;
  reason = "At least one source, target or user entity is present.";
  parameters = field "sourceIp" (str names.source_ip) (
      field "destinationIp" (str names.destination_ip) (field "username" (str names.username) end));
  mapped_mitre_technique_ids = [];
  playbook_template_ids = [];
}

unfoldable pub watchlist : Names → List ResponseCandidate
watchlist names =
    if is_set names.source_ip || is_set names.destination_ip || is_set names.username
    then watched names ∷ []
    else []

-- A block of the source, for the technique and the templates of a family.
abbrev source_block : Names → String → List String → ResponseCandidate
source_block names technique templates = record {
  id = "fortigate.temporary_source_block";
  type = "fortigate";
  label = "Temporarily block source";
  description = "Create a Penguard-owned temporary source block after approval.";
  risk_level = RiskLevel.high;
  requires_approval = true;
  available_now = is_set names.integration_id && is_set names.source_ip;
  provider_required = some "fortigate";
  reason =
      if is_set names.integration_id && is_set names.source_ip
      then "FortiGate integration and source IP are present."
      else "Requires FortiGate integration and source IP evidence.";
  parameters =
      field "integrationId" (str names.integration_id) (field "sourceIp" (str names.source_ip) end);
  mapped_mitre_technique_ids = technique ∷ [];
  playbook_template_ids = templates;
}

abbrev pub block_id : String
block_id = "fortigate.temporary_source_destination_block"

abbrev can_block : Names → Bool
can_block names =
    is_set names.integration_id && (is_set names.source_ip && is_set names.destination_ip)

abbrev target_block : Names → List String → ResponseCandidate
target_block names templates = record {
  id = block_id;
  type = "fortigate";
  label = "Temporarily block source to target";
  description =
      "Create a Penguard-owned temporary block scoped to the observed source and destination after approval.";
  risk_level = RiskLevel.high;
  requires_approval = true;
  available_now = can_block names;
  provider_required = some "fortigate";
  reason =
      if can_block names
      then "FortiGate integration, source IP and destination IP are present."
      else "Requires FortiGate integration, source IP and destination IP.";
  parameters = field "integrationId" (str names.integration_id) (
      field "sourceIp" (str names.source_ip)
        (field "destinationIp" (str names.destination_ip) end));
  mapped_mitre_technique_ids = "T1046" ∷ [];
  playbook_template_ids = templates;
}

abbrev policy_review : Names → ResponseCandidate
policy_review names = record {
  id = "fortigate.policy_review_only";
  type = "fortigate";
  label = "Review firewall policy";
  description = "Create review guidance when live policy changes are not safe.";
  risk_level = RiskLevel.medium;
  requires_approval = false;
  available_now = true;
  provider_required = some "fortigate";
  reason = "Policy review guidance is safe even when live apply is unavailable.";
  parameters = field "integrationId" (str names.integration_id) end;
  mapped_mitre_technique_ids = [];
  playbook_template_ids = [];
}

abbrev scan_templates : List String
scan_templates = "pb_network_scan_triage" ∷ "pb_fortigate_temp_block" ∷ []

-- _fortigate_candidates, for a scan and for a brute force
unfoldable pub scan_candidates : Names → List ResponseCandidate
scan_candidates names =
    source_block names "T1046" scan_templates
    ∷ target_block names scan_templates
    ∷ policy_review names
    ∷ []

unfoldable pub login_candidates : Names → List ResponseCandidate
login_candidates names =
    source_block names "T1110" ("pb_auth_bruteforce_triage" ∷ "pb_fortigate_temp_block" ∷ [])
    ∷ policy_review names
    ∷ []

abbrev review_account : Names → ResponseCandidate
review_account names = record {
  id = "identity.review_account";
  type = "identity";
  label = "Review account";
  description = "Review account activity and ownership before account action.";
  risk_level = RiskLevel.low;
  requires_approval = false;
  available_now = is_set names.username;
  provider_required = none;
  reason =
      if is_set names.username
      then "Username evidence exists."
      else "Username evidence is missing.";
  parameters = field "username" (str names.username) end;
  mapped_mitre_technique_ids = "T1110" ∷ [];
  playbook_template_ids = "pb_auth_bruteforce_triage" ∷ [];
}

-- What an identity provider would do.
abbrev identity_action : Names → String → String → String → ResponseCandidate
identity_action names id label description = record {
  id = id;
  type = "identity";
  label = label;
  description = description;
  risk_level = RiskLevel.high;
  requires_approval = true;
  available_now = false;
  provider_required = some "identity";
  reason = "No identity provider connector is available.";
  parameters = field "username" (str names.username) end;
  mapped_mitre_technique_ids = "T1110" ∷ [];
  playbook_template_ids = "pb_auth_bruteforce_triage" ∷ [];
}

unfoldable pub identity_candidates : Names → List ResponseCandidate
identity_candidates names =
    review_account names
    ∷ identity_action names "identity.lock_user" "Lock user"
        "Temporarily lock the user account through an identity provider."
    ∷ identity_action names "identity.force_password_reset" "Force password reset"
        "Force password reset through an identity provider."
    ∷ []

unfoldable pub family_candidates : Family → Names → List ResponseCandidate
unfolding scan_candidates login_candidates identity_candidates
family_candidates network_scan names = scan_candidates names
family_candidates denied_burst names = scan_candidates names
family_candidates bruteforce names = login_candidates names ++ identity_candidates names
family_candidates suspicious_connection names = []
family_candidates privileged_logon names = []
family_candidates resource_pressure names = []
family_candidates manual names = []

unfoldable pub missing_data : Family → List MissingDataItem
missing_data bruteforce =
    record {
      id = "missing_identity_provider";
      label = "Identity provider connector";
      reason = "Required for account lockout or password reset actions.";
    }
    ∷ []
missing_data network_scan = []
missing_data denied_burst = []
missing_data suspicious_connection = []
missing_data privileged_logon = []
missing_data resource_pressure = []
missing_data manual = []

unfoldable pub build_response_candidates :
    Family → Names → List ResponseCandidate × List MissingDataItem
unfolding watchlist family_candidates missing_data
build_response_candidates family names = (
  case_note ∷ (escalation ∷ (watchlist names ++ family_candidates family names)),
  missing_data family,
)
