-- ===== src/Soar/Defaults.antt =====
-- apps/soar_skipper/app/main.py: the built-in playbooks and `_seed_default_playbooks`, which runs
-- when the service starts.
pub mod Seeded
pub mod Started
use penguard.Prelude.{
  ℕ, String, List, [], ◌∷◌, Bool, true, false, not, Option, none, some, if◌then◌else◌,
}
use penguard.Prelude.Json.{Json, JsonItems, JsonFields, pos, num, str, arr, nil, cons, end, field}
use penguard.Http.{Reply, ok, raised, http_error, Handler, pure, gets, lift, put_state, ◌>>=◌, ◌>>◌}
use penguard.Soar.Models.{
  NodeType, PlaybookNode, PlaybookEdge, Playbook, EdgeCondition, success, trigger_incident_created,
  condition_severity, enrich_ip, case_note, approval_required, notify_webhook,
  fortigate_temporary_block,
}
use penguard.Soar.Store.{SoarStore, get_playbook, save_playbook, update_playbook}
use penguard.Soar.Service.{model_validate, server_error, commit}

abbrev strings : List String → JsonItems
strings [] = nil
strings (s ∷ rest) = cons (str s) (strings rest)

abbrev node : String → NodeType → JsonFields → PlaybookNode
node id type config = record { id = id; type = type; config = config }

abbrev edge : String → String → PlaybookEdge
edge from_node to_node = record {
  id = none;
  from_node = from_node;
  to_node = to_node;
  condition = success;
}

abbrev text_field : String → String → JsonFields
text_field key value = field key (str value) end

abbrev severity_node : List String → PlaybookNode
severity_node severities =
    node "severity" condition_severity (field "severity" (arr (strings severities)) end)

abbrev notify_node : String → PlaybookNode
notify_node channel =
    node "notify" notify_webhook (field "mode" (str "dry_run") (text_field "channel" channel))

abbrev built_in : String → String → List PlaybookNode → List PlaybookEdge → Playbook
built_in id name nodes edges = record {
  schema_version = 1;
  id = id;
  name = name;
  enabled = false;
  system = true;
  nodes = nodes;
  edges = edges;
  runtime_policy = end;
}

abbrev pub port_scan_triage : Playbook
port_scan_triage =
    built_in "pb_port_scan_triage" "Port Scan Triage"
      (node "trigger" trigger_incident_created end
        ∷ severity_node ("high" ∷ "critical" ∷ [])
        ∷ node "enrich_source_ip" enrich_ip (text_field "field" "entities.sourceIp")
        ∷ node "approval" approval_required (text_field "role" "admin")
        ∷ node "recommend_block" fortigate_temporary_block (
            field "scope" (str "source_only") (
              field "durationMinutes" (num (pos 30))
                (text_field "sourceField" "entities.sourceIp")))
        ∷ [])
      (edge "trigger" "severity"
        ∷ edge "severity" "enrich_source_ip"
        ∷ edge "enrich_source_ip" "approval"
        ∷ edge "approval" "recommend_block"
        ∷ [])

abbrev suspicious_endpoint_triage : Playbook
suspicious_endpoint_triage =
    built_in "pb_suspicious_endpoint_triage" "Suspicious Endpoint Triage"
      (node "trigger" trigger_incident_created end
        ∷ severity_node ("medium" ∷ "high" ∷ "critical" ∷ [])
        ∷ node "enrich_endpoint_ip" enrich_ip (text_field "field" "entities.endpointIp")
        ∷ node "case_note" case_note
            (text_field "template" "Review endpoint telemetry before response.")
        ∷ notify_node "soc"
        ∷ [])
      (edge "trigger" "severity"
        ∷ edge "severity" "enrich_endpoint_ip"
        ∷ edge "enrich_endpoint_ip" "case_note"
        ∷ edge "case_note" "notify"
        ∷ [])

abbrev auth_bruteforce_triage : Playbook
auth_bruteforce_triage =
    built_in "pb_auth_bruteforce_triage" "Authentication Brute Force Triage"
      (node "trigger" trigger_incident_created end
        ∷ severity_node ("medium" ∷ "high" ∷ "critical" ∷ [])
        ∷ node "enrich_source_ip" enrich_ip (text_field "field" "entities.sourceIp")
        ∷ node "case_note" case_note
            (text_field "template" "Review failed-login burst for {incident.id}.")
        ∷ notify_node "identity"
        ∷ [])
      (edge "trigger" "severity"
        ∷ edge "severity" "enrich_source_ip"
        ∷ edge "enrich_source_ip" "case_note"
        ∷ edge "case_note" "notify"
        ∷ [])

abbrev pub default_playbooks : List Playbook
default_playbooks = port_scan_triage ∷ suspicious_endpoint_triage ∷ auth_bruteforce_triage ∷ []

abbrev pub mark_system : Playbook → Playbook
mark_system playbook = record playbook { system = true }

unfoldable seed_existing : Playbook → Option Playbook → Handler SoarStore (Unit {0})
seed_existing playbook none = do saved ← gets (save_playbook playbook.id playbook); commit saved
seed_existing playbook (some existing) = do
  current ← lift (model_validate server_error existing)
  s ←
      gets
        (λ s. if not current.system then update_playbook playbook.id (mark_system current) s else s)
  put_state s

-- The body of the loop.
unfoldable pub seed_playbook : Playbook → Handler SoarStore (Unit {0})
unfolding seed_existing
seed_playbook playbook = do
  existing ← gets (get_playbook playbook.id)
  seed_existing playbook existing

unfoldable pub seed_playbooks : List Playbook → Handler SoarStore (Unit {0})
seed_playbooks [] = pure tt
seed_playbooks (playbook ∷ rest) = do seed_playbook playbook; seed_playbooks rest
