-- ===== src/PlaybooksTests.antt =====
-- A run of a playbook (apps/api/app/playbooks/effects.py) with a gate in its middle, and the
-- theorems there.
use penguard.Prelude.{ℕ, suc, ◌+◌, ◌≤◌, String, [], ◌∷◌, ◌≡◌, refl, Bool, true, some, length, map}
use penguard.Prelude.Counts.{count}
use penguard.Prelude.Texts.{lower_codes, same_codes, split}
use penguard.Prelude.Json.{Json, JsonFields, str, arr, obj, cons, nil, end, field, get_field}
use penguard.Prelude.Values.{truthy, value_of}
use penguard.Playbooks.Documents.{
  Node, Edge, Document, value_at, value_at_path, any_same, severity_matches,
}
use penguard.Playbooks.Walk.{
  node_key, nodes_by_id, outgoing, is_incoming, first_node, branch, next_node, walk, walk_nodes,
}
use penguard.Playbooks.Walk.Once.{walk_nodes-walk, walk_nodes-count}
use penguard.Playbooks.Render.{render, replaced, token_value, with_incident}
use penguard.Playbooks.Effects.{
  Progress, triage_note, run_node, run_nodes, execute_playbook_effects, is_recommendation,
  has_false_edge, condition_severity, case_note, approval_required,
}
use penguard.Playbooks.Effects.Gates.{run_nodes-gate, calls-gate}
use penguard.Prelude.{◌==◌, if◌then◌else◌}
use penguard.Prelude.Tables.{insert}
use penguard.Playbooks.Webhooks.{
  Url, Creation, DestinationRow, public_item, segments, sql_create, sql_get_public, sql_get_url,
  memory_get_public, memory_get_url,
}
use penguard.Playbooks.Webhooks.Agreement.{Steps, empty_store, memory_all, sql_all, stores-agree}
use penguard.Playbooks.Webhooks.Redaction.{public_item-hides}

abbrev no_text : Json → String
no_text value = "?"

abbrev answer : String → JsonFields → Bool × ℕ
answer destination payload = (true, 204)

abbrev node : String → String → JsonFields → Node
node id type config = record { id = some id; type = some type; config = some config }

abbrev edge : String → String → Edge
edge source target = record {
  from_node = some source;
  to_node = some target;
  condition = some "success";
}

abbrev incident : JsonFields
incident =
    field "severity" (str "High")
      (field "entities" (obj (field "sourceIp" (str "10.0.0.1") end)) end)

abbrev start_node : Node
start_node = node "t" "trigger.incident_created" end

abbrev check_node : Node
check_node = node "s" "condition.severity" (field "severity" (arr (cons (str "high") nil)) end)

abbrev first_note : Node
first_note =
    node "n" "case.note"
      (field "template" (str "From {entities.sourceIp}: {node.s.matched} {x") end)

abbrev gate_node : Node
gate_node = node "g" "approval.required" end

abbrev last_note : Node
last_note = node "m" "case.note" (field "template" (str "blocked") end)

-- The last edge leads back to the note.
abbrev playbook : Document
playbook = record {
  nodes = last_note ∷ start_node ∷ gate_node ∷ first_note ∷ check_node ∷ [];
  edges = edge "t" "s" ∷ edge "s" "n" ∷ edge "n" "g" ∷ edge "g" "m" ∷ edge "m" "n" ∷ [];
}

path_taken :
    walk_nodes no_text playbook incident
    ≡ start_node ∷ check_node ∷ first_note ∷ gate_node ∷ last_note ∷ []
unfolding walk_nodes walk first_node next_node branch nodes_by_id outgoing is_incoming
    severity_matches any_same lower_codes same_codes value_of truthy get_field
path_taken = refl

calls_made :
    (execute_playbook_effects no_text answer incident playbook).calls
    ≡ triage_note "From 10.0.0.1: ? {x" ∷ []
unfolding walk_nodes walk first_node next_node branch nodes_by_id outgoing is_incoming
    severity_matches any_same lower_codes same_codes value_of truthy get_field
    execute_playbook_effects run_nodes run_node condition_severity case_note approval_required
    render replaced token_value with_incident split value_at value_at_path is_recommendation
    has_false_edge
calls_made = refl

abbrev empty : Progress
empty = record { effects = []; outputs = end; calls = [] }

walk_nodes-walk_example :
    walk no_text playbook incident (suc (length playbook.nodes) + 3) (first_node playbook) []
    ≡ walk_nodes no_text playbook incident
walk_nodes-walk_example = walk_nodes-walk no_text playbook incident 3

walk_nodes-count_example : count "n" (map node_key (walk_nodes no_text playbook incident)) ≤ 1
walk_nodes-count_example = walk_nodes-count no_text playbook incident "n"

run_nodes-gate_example :
    run_nodes no_text answer incident playbook (first_note ∷ gate_node ∷ last_note ∷ []) empty
    ≡ run_nodes no_text answer incident playbook (first_note ∷ gate_node ∷ []) empty
run_nodes-gate_example =
    run_nodes-gate no_text answer incident playbook (first_note ∷ []) (last_note ∷ []) gate_node
      empty refl

calls-gate_example :
    (run_nodes no_text answer incident playbook
      (first_note ∷ gate_node ∷ last_note ∷ [])
      empty).calls
    ≡ (run_nodes no_text answer incident playbook (first_note ∷ []) empty).calls
calls-gate_example =
    calls-gate no_text answer incident playbook (first_note ∷ []) (last_note ∷ []) gate_node empty
      refl

-- Two webhooks of one channel, by what `urlparse` gives of them.
abbrev urlparse : String → Url
urlparse text = record {
  scheme = "https";
  netloc = "discord.com";
  path = if text == "first" then "/api/webhooks/7/secret" else "/api/webhooks/7/other";
}

abbrev creation : Creation
creation = record { owner_user_id = "ana"; name = "alerts"; kind = "discord"; url = "first" }

abbrev stored_row : DestinationRow
stored_row = record {
  item = public_item urlparse "pwd_1" "noon" "noon" creation;
  url_blob = "first";
}

abbrev one_step : Steps
one_step = (("pwd_1", "noon"), creation) ∷ []

abbrev plain : String → String
plain text = text

one_step-stored : sql_all urlparse plain one_step [] ≡ some (stored_row ∷ [])
unfolding sql_all sql_create insert
one_step-stored = refl

stores-agree_example :
    (memory_get_public "ana" "pwd_1" (memory_all urlparse one_step empty_store)
      ≡ sql_get_public "ana" "pwd_1" (stored_row ∷ []))
    × (memory_get_url "ana" "pwd_1" (memory_all urlparse one_step empty_store)
        ≡ sql_get_url plain "ana" "pwd_1" (stored_row ∷ []))
stores-agree_example =
    stores-agree urlparse plain plain (λ _. refl) one_step (stored_row ∷ []) "ana" "pwd_1"
      (refl, tt) one_step-stored

first-segments : segments (urlparse "first").path ≡ "api" ∷ "webhooks" ∷ "7" ∷ "secret" ∷ []
unfolding split
first-segments = refl

second-segments : segments (urlparse "second").path ≡ "api" ∷ "webhooks" ∷ "7" ∷ "other" ∷ []
unfolding split
second-segments = refl

public_item-hides_example :
    public_item urlparse "pwd_1" "noon" "noon" (record creation { url = "second" })
    ≡ public_item urlparse "pwd_1" "noon" "noon" creation
public_item-hides_example =
    public_item-hides urlparse "pwd_1" "noon" creation "second" "api" "webhooks" "7" ("secret" ∷ [])
      ("other" ∷ []) refl refl first-segments second-segments
