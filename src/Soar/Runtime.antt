-- ===== src/Soar/Runtime.antt =====
-- apps/soar_skipper/app/runtime.py: the order in which a playbook's nodes run, and the dry run that
-- a playbook gives. A Python dict from node ids is a function here; a validated playbook has a key
-- for every id that its edges name, so no lookup misses.
pub mod Graph
pub mod Order
pub mod Sorted
use penguard.Prelude.{
  ℕ, zero, suc, ◌+◌, ◌-◌, String, List, [], ◌∷◌, ◌++◌, Bool, true, ◌||◌, Option, none, some, ◌==◌,
  map, any, filter, length, eqb, sorted_by, if◌then◌else◌,
}
use mathlib.Core.List.{foldl}
use penguard.Soar.Models.{
  PlaybookNode, PlaybookEdge, Playbook, Status, StepPreview, PlaybookStepRun, PlaybookNodeRun,
  EdgeTraversal, PlaybookRun, completed, waiting_approval, is_sensitive, is_approval, node_id,
  node_ids,
}

-- d[key] = value
abbrev assign {ℓ} : {A : Type ℓ} → (String → A) → String → A → String → A
assign d key value other = if key == other then value else d other

pub record Adjacency : Type 0 where
  pub outgoing : String → List String
  pub indegree : String → ℕ

-- The body of the loop over the edges.
abbrev pub add_edge : Adjacency → PlaybookEdge → Adjacency
add_edge g edge = record {
  outgoing = assign g.outgoing edge.from_node (g.outgoing edge.from_node ++ edge.to_node ∷ []);
  indegree = assign g.indegree edge.to_node (g.indegree edge.to_node + 1);
}

unfoldable pub adjacency : List PlaybookEdge → Adjacency
adjacency = foldl add_edge (record { outgoing = λ _. []; indegree = λ _. 0 })

-- input_order: the index of an id, which is there once
unfoldable pub input_order : List String → String → ℕ
input_order [] id = 0
input_order (first ∷ rest) id = if first == id then 0 else suc (input_order rest id)

pub record Progress : Type 0 where
  pub queue : List String
  pub ordered_ids : List String
  pub indegree : String → ℕ

-- The inner loop, over the sorted successors of the node that was taken. The counter is positive
-- before each `-= 1` (see Order), so the subtraction on ℕ is Python's.
unfoldable pub release : List String → Progress → Progress
release [] s = s
release (next ∷ rest) s =
    let left = s.indegree next - 1 in
    release rest (record s {
      indegree = assign s.indegree next left;
      queue = if eqb left 0 then s.queue ++ next ∷ [] else s.queue;
    })

-- The body of `while queue`, for the first id of the queue.
unfoldable pub take_node : (String → List String) → String → List String → Progress → Progress
take_node successors id rest s =
    release (successors id) (record s { queue = rest; ordered_ids = s.ordered_ids ++ id ∷ [] })

-- `while queue`, on fuel; a result with a queue that is not empty has run out of it.
unfoldable pub drain_queue : (String → List String) → ℕ → List String → Progress → Progress
drain_queue successors fuel [] s = s
drain_queue successors zero (id ∷ rest) s = s
drain_queue successors (suc fuel) (id ∷ rest) s =
    let s' = take_node successors id rest s in drain_queue successors fuel s'.queue s'

abbrev pub sorted_successors : Playbook → String → List String
sorted_successors playbook id =
    sorted_by (input_order (node_ids playbook)) ((adjacency playbook.edges).outgoing id)

abbrev pub start : Playbook → Progress
start playbook = record {
  queue =
      sorted_by (input_order (node_ids playbook))
        (filter (λ id. eqb ((adjacency playbook.edges).indegree id) 0) (node_ids playbook));
  ordered_ids = [];
  indegree = (adjacency playbook.edges).indegree;
}

-- The state after the loop. Each round takes one node, so the number of nodes is enough fuel.
unfoldable pub drained : Playbook → Progress
drained playbook =
    drain_queue (sorted_successors playbook) (length playbook.nodes) (start playbook).queue
      (start playbook)

-- nodes_by_id: of two nodes with one id the later would stay
unfoldable pub nodes_by_id : List PlaybookNode → String → Option PlaybookNode
nodes_by_id [] id = none
nodes_by_id (node ∷ nodes) id = elim (nodes_by_id nodes id) [
  | some later ↦ some later
  | none ↦ if node_id node == id then some node else none
]

-- [nodes_by_id[id] for id in ids]; every id of the order is a node's, so no key is missing
unfoldable pub nodes_of : List PlaybookNode → List String → List PlaybookNode
nodes_of nodes [] = []
nodes_of nodes (id ∷ ids) =
    let rest = nodes_of nodes ids in
    elim (nodes_by_id nodes id) [ some node ↦ node ∷ rest | none ↦ rest ]

unfoldable pub ordered_nodes : Playbook → List PlaybookNode
ordered_nodes playbook =
    if eqb (length (drained playbook).ordered_ids) (length playbook.nodes)
    then nodes_of playbook.nodes (drained playbook).ordered_ids
    else playbook.nodes

unfoldable pub status_for_node : PlaybookNode → Status
status_for_node node =
    if is_sensitive node.type || is_approval node.type then waiting_approval else completed

unfoldable pub build_step_previews : Playbook → List StepPreview
unfolding status_for_node
build_step_previews playbook =
    map
      (λ (node : PlaybookNode). record {
        node_id = node.id;
        node_type = node.type;
        status = status_for_node node;
        sensitive = is_sensitive node.type;
      })
      (ordered_nodes playbook)
