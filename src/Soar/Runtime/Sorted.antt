-- ===== src/Soar/Runtime/Sorted.antt =====
-- `ordered_nodes` on a validated playbook: what its loop has settled when it ends.
use penguard.Prelude.{
  ℕ, zero, suc, ◌≤◌, ◌<◌, String, List, [], ◌∷◌, ◌++◌, ◌≡◌, refl, ◌∙◌, true, eq_iff, eq_refl, eqb,
  contains, arith, if◌then◌else◌, Bool-cases, String-cases, Option-cases, inl, inr, length, map,
  All, all, none, some, length-map,
}
use penguard.Prelude.Counts.{
  count, count-append, count-sorted_by, count-filter, contains-eq-true, contains_of_present,
  length_le_of_count, count_eq_of_length,
}
use penguard.Soar.Models.{
  Playbook, PlaybookNode, PlaybookEdge, node_id, node_ids, all_distinct, edge_is_known,
  validate_graph,
}
use penguard.Soar.Runtime.{
  adjacency, sorted_successors, start, drained, input_order, nodes_by_id, nodes_of, ordered_nodes,
}
use penguard.Soar.Runtime.Graph.{pending, between, indegree-adjacency, count-outgoing, Balanced}
use penguard.Soar.Runtime.Order.{Forward, IsGraph, Settled, drain_queue-Settled}

count_of_all_distinct : (ids : List String) (v : String) → all_distinct ids ≡ true → count v ids ≤ 1
unfolding all_distinct
count_of_all_distinct [] v h = omega arith
count_of_all_distinct (id ∷ ids) v h =
    ground (arith, count_of_all_distinct ids v, contains_of_present id ids, eq_iff id v)

between-ends :
    (ids : List String) (edges : List PlaybookEdge) (u v : String)
    → all (edge_is_known ids) edges ≡ true
    → 0 < between u v edges
    → 0 < count v ids
unfolding between
between-ends ids [] u v h k = absurd (omega arith)
between-ends ids (edge ∷ edges) u v h k =
    ground
      (arith, between-ends ids edges u v, contains-eq-true edge.to_node ids, eq_iff edge.to_node v)

validate_graph-facts :
    (playbook : Playbook)
    → validate_graph playbook ≡ none
    → (all_distinct (node_ids playbook) ≡ true)
      × (all (edge_is_known (node_ids playbook)) playbook.edges ≡ true)
unfolding validate_graph
validate_graph-facts playbook h = ground arith

-- A validated playbook is a graph: each id once, and no edge to an id that is not there.
validate_graph-IsGraph :
    (playbook : Playbook)
    → validate_graph playbook ≡ none
    → IsGraph (node_ids playbook) playbook.edges
validate_graph-IsGraph playbook h =
    let (distinct, known) = validate_graph-facts playbook h in
    let once : (v : String) → count v (node_ids playbook) ≤ 1 =
      λ v. count_of_all_distinct (node_ids playbook) v distinct in
    record {
      once = once;
      ends = λ u v k.
          omega (arith, once v, between-ends (node_ids playbook) playbook.edges u v known k);
    }

module _ (playbook : Playbook) (valid : validate_graph playbook ≡ none) where
  start-Balanced : Balanced (node_ids playbook) playbook.edges [] [] (start playbook)
  start-Balanced = record {
    counter = λ v. omega (arith, indegree-adjacency playbook.edges v);
    reached = λ v.
        count-sorted_by v (input_order (node_ids playbook)) _
        ∙ count-filter v (λ id. eqb ((adjacency playbook.edges).indegree id) 0) (node_ids playbook);
  }

  successors-count :
      (u v : String) → count v (sorted_successors playbook u) ≡ between u v playbook.edges
  successors-count u v =
      count-sorted_by v (input_order (node_ids playbook)) _ ∙ count-outgoing playbook.edges u v

  drained-Settled : Settled (node_ids playbook) playbook.edges [] (drained playbook)
  unfolding drained
  drained-Settled =
      drain_queue-Settled (node_ids playbook) playbook.edges (sorted_successors playbook)
        (validate_graph-IsGraph playbook valid) successors-count (length playbook.nodes)
        (start playbook).queue (start playbook) refl start-Balanced
        (omega (arith, length-map node_id playbook.nodes))

  -- For a validated playbook the queue is worked off within the rounds given: `while queue` ends.
  pub drained-ends : (drained playbook).queue ≡ []
  drained-ends = drained-Settled.ended

  drained-count-le :
      (v : String) → count v (drained playbook).ordered_ids ≤ count v (node_ids playbook)
  drained-count-le v =
      let b = drained-Settled.balanced in
      ground
        (arith, b.reached v, count-append v (drained playbook).ordered_ids (drained playbook).queue)

-- The unsettled edges into `v` are none if the nodes below it in the numbering are all in `seen`.
pending_of_lower :
    (rank : String → ℕ) (seen ids : List String) (v : String) (edges : List PlaybookEdge)
    → all (edge_is_known ids) edges ≡ true
    → All (λ (edge : PlaybookEdge). rank edge.from_node < rank edge.to_node) edges
    → ((u : String) → rank u < rank v → 0 < count u ids → contains u seen ≡ true)
    → pending seen v edges ≡ 0
unfolding pending
pending_of_lower rank seen ids v [] known up lower = refl
pending_of_lower rank seen ids v (edge ∷ edges) known up lower =
    elim (String-cases edge.to_node v) [
      | inl e ↦ ground (
        arith,
        pending_of_lower rank seen ids v edges,
        up.1,
        lower,
        lower edge.from_node (rw (← e) up.0),
        contains-eq-true edge.from_node ids,
      )
      | inr e ↦ ground (arith, e, pending_of_lower rank seen ids v edges, up.1, lower)
    ]

-- A playbook without cycles: its nodes can be numbered so that every edge goes up.
abbrev GoesUp : (String → ℕ) → Playbook → Type 0
GoesUp rank playbook =
    All (λ (edge : PlaybookEdge). rank edge.from_node < rank edge.to_node) playbook.edges

module _ (playbook : Playbook) (valid : validate_graph playbook ≡ none) (rank : String → ℕ)
    (up : GoesUp rank playbook) where
  taken_by_rank :
      (n : ℕ) (v : String)
      → rank v < n
      → 0 < count v (node_ids playbook)
      → contains v (drained playbook).ordered_ids ≡ true
  taken_by_rank zero v h k = absurd (omega arith)
  taken_by_rank (suc n) v h k =
      let done = drained-Settled playbook valid in
      let o = (drained playbook).ordered_ids in
      let none_left : pending o v playbook.edges ≡ 0 =
        pending_of_lower rank o (node_ids playbook) v playbook.edges
          (validate_graph-facts playbook valid).1 up
          (λ u below there. taken_by_rank n u (omega arith) there) in
      let reached : count v (o ++ (drained playbook).queue)
          ≡ (if eqb ((drained playbook).indegree v) 0 then count v (node_ids playbook) else 0) =
        done.balanced.reached v in
      contains_of_present v o (
        ground (
          arith,
          done.balanced.counter v,
          none_left,
          reached,
          done.ended,
          count-append v o (drained playbook).queue,
        ))

  -- Then the loop takes every node.
  drained-length : length (drained playbook).ordered_ids ≡ length playbook.nodes
  drained-length =
      let done = drained-Settled playbook valid in
      let o = (drained playbook).ordered_ids in
      let at_least : length (node_ids playbook) ≤ length o =
        length_le_of_count (node_ids playbook) o (λ v. ground (
          arith,
          (validate_graph-IsGraph playbook valid).once v,
          taken_by_rank (suc (rank v)) v (omega arith),
          contains-eq-true v o,
        )) in
      omega (
        arith,
        length-map node_id playbook.nodes,
        at_least,
        length_le_of_count o (node_ids playbook) (drained-count-le playbook valid),
      )

nodes_by_id-id :
    (nodes : List PlaybookNode) (id : String) {node : PlaybookNode}
    → nodes_by_id nodes id ≡ some node
    → node_id node ≡ id
unfolding nodes_by_id
nodes_by_id-id [] id h = cc
nodes_by_id-id (first ∷ nodes) id h = elim (Option-cases (nodes_by_id nodes id)) [
  | inl gone ↦ ground (arith, gone, h, eq_iff (node_id first) id)
  | inr (later, e) ↦ cc (nodes_by_id-id nodes id e, e, h)
]

nodes_by_id-none :
    (nodes : List PlaybookNode) (id : String)
    → nodes_by_id nodes id ≡ none
    → count id (map node_id nodes) ≡ 0
unfolding nodes_by_id
nodes_by_id-none [] id h = refl
nodes_by_id-none (first ∷ nodes) id h = ground (arith, nodes_by_id-none nodes id)

nodes_by_id_there :
    (nodes : List PlaybookNode) (id : String)
    → 0 < count id (map node_id nodes)
    → (node : PlaybookNode) × (nodes_by_id nodes id ≡ some node) × (node_id node ≡ id)
nodes_by_id_there nodes id h = elim (Option-cases (nodes_by_id nodes id)) [
  | inl gone ↦ absurd (omega (arith, nodes_by_id-none nodes id gone))
  | inr (node, e) ↦ (node, e, nodes_by_id-id nodes id e)
]

-- The nodes of a list of ids have those ids.
nodes_of-ids :
    (nodes : List PlaybookNode) (ids : List String)
    → ((v : String) → count v ids ≤ count v (map node_id nodes))
    → map node_id (nodes_of nodes ids) ≡ ids
unfolding nodes_of
nodes_of-ids nodes [] h = refl
nodes_of-ids nodes (id ∷ ids) h =
    let (node, found, same) = nodes_by_id_there nodes id (ground (arith, h id, eq_refl id)) in
    let rest : map node_id (nodes_of nodes ids) ≡ ids =
      nodes_of-ids nodes ids (λ v. ground (arith, h v)) in
    rw (found, nodes_of, map) (cc (same, rest))

module _ (playbook : Playbook) (valid : validate_graph playbook ≡ none) where
  drained-ids :
      map node_id (nodes_of playbook.nodes (drained playbook).ordered_ids)
      ≡ (drained playbook).ordered_ids
  drained-ids =
      nodes_of-ids playbook.nodes (drained playbook).ordered_ids (drained-count-le playbook valid)

  -- A validated playbook runs each of its nodes once and nothing else, whatever its edges are.
  pub ordered_nodes-count :
      (id : String) → count id (map node_id (ordered_nodes playbook)) ≡ count id (node_ids playbook)
  unfolding ordered_nodes
  ordered_nodes-count id =
      elim (Bool-cases (eqb (length (drained playbook).ordered_ids) (length playbook.nodes))) [
        | inl e ↦
            rw (e, drained-ids)
              (count_eq_of_length (drained playbook).ordered_ids (node_ids playbook)
                (drained-count-le playbook valid)
                (ground (arith, e, length-map node_id playbook.nodes)) id)
        | inr e ↦ rw e
      ]

  -- If the edges of a validated playbook have no cycle, each node runs after all nodes that lead
  -- to it.
  pub ordered_nodes-Forward :
      (rank : String → ℕ)
      → GoesUp rank playbook
      → Forward playbook.edges [] (map node_id (ordered_nodes playbook))
  unfolding ordered_nodes
  ordered_nodes-Forward rank up =
      let e : eqb (length (drained playbook).ordered_ids) (length playbook.nodes) ≡ true =
        ground (arith, drained-length playbook valid rank up) in
      let done = drained-Settled playbook valid in rw (e, drained-ids, done.grown) done.forward
