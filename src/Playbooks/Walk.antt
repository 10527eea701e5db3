-- ===== src/Playbooks/Walk.antt =====
-- apps/api/app/playbooks/effects.py, `_walk_nodes` and `_next_node`: the path that a run takes
-- through the playbook.
pub mod Once
use penguard.Prelude.{
  ℕ, zero, suc, String, List, [], ◌∷◌, Bool, true, false, not, ◌&&◌, ◌||◌, Option, none, some, ◌==◌,
  any, filter, find, contains, length, if◌then◌else◌,
}
use penguard.Prelude.Json.{Json, JsonFields}
use penguard.Prelude.Values.{truthy, value_of, or_default}
use penguard.Playbooks.Documents.{
  Node, Edge, Document, str_or_none, text_of, config_of, severity_matches,
}

abbrev pub node_key : Node → String
node_key node = str_or_none node.id

-- node.get("type") == name
abbrev pub has_type : String → Node → Bool
has_type name node = elim node.type [ none ↦ false | some type ↦ type == name ]

unfoldable pub nodes_by_id : List Node → String → Option Node
nodes_by_id [] id = none
nodes_by_id (node ∷ nodes) id = elim (nodes_by_id nodes id) [
  | some later ↦ some later
  | none ↦ if node_key node == id then some node else none
]

-- An edge with both ends.
abbrev is_linked : Edge → Bool
is_linked edge = not (text_of edge.from_node == "") && not (text_of edge.to_node == "")

unfoldable pub outgoing : List Edge → String → List Edge
outgoing edges id = filter (λ (edge : Edge). is_linked edge && text_of edge.from_node == id) edges

unfoldable pub is_incoming : List Edge → String → Bool
is_incoming edges id = any (λ (edge : Edge). is_linked edge && text_of edge.to_node == id) edges

abbrev pub or_else : {A : Type 0} → Option A → Option A → Option A
or_else none second = second
or_else (some x) second = some x

abbrev pub first_of : List Node → Option Node
first_of [] = none
first_of (node ∷ _) = some node

-- The trigger, the first node that no edge leads to, or the first node.
unfoldable pub first_node : Document → Option Node
first_node playbook = or_else (find (has_type "trigger.incident_created") playbook.nodes) (
    or_else (find (λ node. not (is_incoming playbook.edges (node_key node))) playbook.nodes)
      (first_of playbook.nodes))

-- item.get("condition") in (None, "", "success")
abbrev pub is_default : Edge → Bool
is_default edge = elim edge.condition [
  | none ↦ true
  | some condition ↦ condition == "" || condition == "success"
]

abbrev has_condition : String → Edge → Bool
has_condition name edge = elim edge.condition [ none ↦ false | some condition ↦ condition == name ]

-- nodes_by_id.get(str(edge.get("to")))
abbrev pub target : List Node → Option Edge → Option Node
target nodes none = none
target nodes (some edge) = nodes_by_id nodes (str_or_none edge.to_node)

module _ (str_of : Json → String) where
  -- The edge that is taken out of a condition.
  unfoldable pub branch : Bool → List Edge → Option Edge
  branch true edges = or_else (find (has_condition "true") edges) (find is_default edges)
  branch false edges = find (has_condition "false") edges

  unfoldable pub next_node : Node → List Edge → List Node → JsonFields → Option Node
  unfolding branch
  next_node node [] nodes incident = none
  next_node node (first ∷ rest) nodes incident =
      if has_type "condition.severity" node
      then target nodes (branch (severity_matches str_of (config_of node) incident) (first ∷ rest))
      else target nodes (or_else (find is_default (first ∷ rest)) (some first))

  -- `while current`, on fuel.
  unfoldable pub walk : Document → JsonFields → ℕ → Option Node → List String → List Node
  walk playbook incident fuel none visited = []
  walk playbook incident zero (some node) visited = []
  walk playbook incident (suc fuel) (some node) visited =
      let rest =
        walk playbook incident fuel
          (next_node node (outgoing playbook.edges (node_key node)) playbook.nodes incident)
          (node_key node ∷ visited) in
      if contains (node_key node) visited then [] else node ∷ rest

  -- Each round but the last visits a node for the first time, so one round more than there are
  -- nodes is enough fuel.
  unfoldable pub walk_nodes : Document → JsonFields → List Node
  walk_nodes playbook incident =
      walk playbook incident (suc (length playbook.nodes)) (first_node playbook) []
