-- ===== src/Soar/Models.antt =====
-- apps/soar_skipper/app/models.py: playbooks, runs and the validators of a playbook; the node type
-- sets of node_catalog.py and the save check of graph_validation.py.
-- `PlaybookNode.position`, canvas coordinates as floats, is left out: no operation reads it.
use text.Mathlib.Text.{starts_with}
use penguard.Prelude.{
  ℕ, String, List, [], ◌∷◌, Bool, true, false, not, ◌&&◌, Option, none, some, ◌==◌, map, any, all,
  contains, leb, length, if◌then◌else◌,
}
use penguard.Prelude.Json.{JsonFields}

pub data NodeType : Type 0 where
  trigger_incident_created condition_severity enrich_ip case_note audit_note : NodeType
  approval_required notify_webhook fortigate_recommend_block : NodeType
  fortiweb_recommend_block fortigate_temporary_block webhook_dry_run : NodeType

unfoldable pub type_name : NodeType → String
type_name trigger_incident_created = "trigger.incident_created"
type_name condition_severity = "condition.severity"
type_name enrich_ip = "enrich.ip"
type_name case_note = "case.note"
type_name audit_note = "audit.note"
type_name approval_required = "approval.required"
type_name notify_webhook = "notify.webhook"
type_name fortigate_recommend_block = "fortigate.recommend_block"
type_name fortiweb_recommend_block = "fortiweb.recommend_block"
type_name fortigate_temporary_block = "fortigate.temporary_block"
type_name webhook_dry_run = "webhook.dry_run"

-- node.type in SENSITIVE_NODE_TYPES
unfoldable pub is_sensitive : NodeType → Bool
is_sensitive fortigate_recommend_block = true
is_sensitive fortigate_temporary_block = true
is_sensitive fortiweb_recommend_block = true
is_sensitive _ = false

-- node.type in APPROVAL_NODE_TYPES
unfoldable pub is_approval : NodeType → Bool
is_approval approval_required = true
is_approval _ = false

pub data Status : Type 0 where
  pending running completed skipped failed waiting_approval timed_out cancelled : Status

unfoldable pub Status-discrete : Discrete Status
Status-discrete = hlevel

pub data EdgeCondition : Type 0 where
  success failure on_true on_false approved rejected loop_next loop_done : EdgeCondition

pub record PlaybookNode : Type 0 where
  pub id : String
  pub type : NodeType
  pub config : JsonFields

pub record PlaybookEdge : Type 0 where
  pub id : Option String
  pub from_node : String
  pub to_node : String
  pub condition : EdgeCondition

pub record Playbook : Type 0 where
  pub schema_version : ℕ
  pub id : String
  pub name : String
  pub enabled : Bool
  pub system : Bool
  pub nodes : List PlaybookNode
  pub edges : List PlaybookEdge
  pub runtime_policy : JsonFields

abbrev pub node_id : PlaybookNode → String
node_id node = node.id

abbrev pub node_ids : Playbook → List String
node_ids playbook = map node_id playbook.nodes

-- len(set(ids)) == len(ids)
unfoldable pub all_distinct : List String → Bool
all_distinct [] = true
all_distinct (id ∷ rest) = not (contains id rest) && all_distinct rest

abbrev pub edge_is_known : List String → PlaybookEdge → Bool
edge_is_known ids edge = contains edge.from_node ids && contains edge.to_node ids

-- Playbook.validate_graph, the first error that it raises
unfoldable pub validate_graph : Playbook → Option String
unfolding all_distinct
validate_graph playbook =
    if not (all_distinct (node_ids playbook))
    then some "playbook node ids must be unique"
    else if not (all (edge_is_known (node_ids playbook)) playbook.edges)
    then some "playbook edges must reference existing node ids"
    else none

-- The bounds of the fields: min_length=1, ge=1.
unfoldable pub fields_in_bounds : Playbook → Bool
fields_in_bounds playbook =
    leb 1 playbook.schema_version
    && not (playbook.id == "")
    && not (playbook.name == "")
    && leb 1 (length playbook.nodes)
    && all (λ node. not (node_id node == "")) playbook.nodes
    && all (λ (edge : PlaybookEdge). not (edge.from_node == "") && not (edge.to_node == ""))
        playbook.edges

-- validate_playbook_for_save
unfoldable pub validate_playbook_for_save : Playbook → List String
unfolding type_name
validate_playbook_for_save playbook =
    if not
      (any (λ (node : PlaybookNode). starts_with (type_name node.type) "trigger.") playbook.nodes)
    then "playbook must include at least one trigger node" ∷ []
    else []

pub record StepPreview : Type 0 where
  pub node_id : String
  pub node_type : NodeType
  pub status : Status
  pub sensitive : Bool

pub record PlaybookStepRun : Type 0 where
  pub index : ℕ  -- the number in the id `step_{index + 1}`
  pub node_id : String
  pub node_type : NodeType
  pub status : Status
  pub sensitive : Bool
  pub created_at : ℕ

pub record PlaybookNodeRun : Type 0 where
  pub index : ℕ  -- the number in the id `node_run_{index + 1}`
  pub node_id : String
  pub node_type : NodeType
  pub status : Status
  pub sensitive : Bool
  pub attempt : ℕ
  pub iteration : ℕ
  pub started_at : ℕ
  pub completed_at : Option ℕ
  pub error : Option String

pub record EdgeTraversal : Type 0 where
  pub index : ℕ  -- the number in the id `edge_traversal_{index + 1}`
  pub from_node : String
  pub to_node : String
  pub condition : EdgeCondition
  pub created_at : ℕ

pub record PlaybookRun : Type 0 where
  pub id : String
  pub incident_id : String
  pub playbook_id : String
  pub dry_run : Bool
  pub status : Status
  pub steps : List PlaybookStepRun
  pub node_runs : List PlaybookNodeRun
  pub edge_traversals : List EdgeTraversal
  pub created_at : ℕ
