-- ===== src/Playbooks/Walk/Once.antt =====
-- apps/api/app/playbooks/effects.py, `_walk_nodes`: the visited set and the end of the loop.
use penguard.Prelude.{
  ℕ, zero, suc, ◌+◌, ◌≤◌, ◌<◌, String, List, [], ◌∷◌, ◌≡◌, refl, ap, Bool, true, false, not, Option,
  none, some, ◌==◌, eq_iff, eq_refl, arith, any, filter, find, contains, length, map, if◌then◌else◌,
  inl, inr, Bool-cases, Option-cases, String-cases,
}
use penguard.Prelude.Counts.{count}
use penguard.Prelude.Json.{Json, JsonFields}
use penguard.Playbooks.Documents.{Node, Edge, Document, config_of, severity_matches, str_or_none}
use penguard.Playbooks.Walk.{
  node_key, nodes_by_id, outgoing, first_node, next_node, walk, walk_nodes, branch, target,
  is_default, has_type, or_else, first_of, is_incoming,
}

abbrev has_key : String → List Node → Bool
has_key id = any (λ (node : Node). node_key node == id)

-- How many nodes were not visited yet.
abbrev fresh : List String → List Node → ℕ
fresh visited nodes =
    length (filter (λ (node : Node). not (contains (node_key node) visited)) nodes)

fresh_mono :
    (id : String) (visited : List String) (nodes : List Node)
    → fresh (id ∷ visited) nodes ≤ fresh visited nodes
fresh_mono id visited [] = ground arith
fresh_mono id visited (node ∷ nodes) = ground (arith, fresh_mono id visited nodes)

fresh-visit :
    (id : String) (visited : List String) (nodes : List Node)
    → has_key id nodes ≡ true
    → contains id visited ≡ false
    → fresh (id ∷ visited) nodes < fresh visited nodes
fresh-visit id visited [] known new = cc (known)
fresh-visit id visited (node ∷ nodes) known new = elim (Bool-cases (node_key node == id)) [
  | inl own ↦
      ground (arith, own, new, eq_iff (node_key node) id, eq_refl id, fresh_mono id visited nodes)
  | inr other ↦
      ground (arith, other, known, fresh-visit id visited nodes, fresh_mono id visited nodes)
]

by_id-has_key :
    (nodes : List Node) (id : String) {node : Node}
    → nodes_by_id nodes id ≡ some node
    → has_key (node_key node) nodes ≡ true
unfolding nodes_by_id
by_id-has_key [] id h = cc h
by_id-has_key (first ∷ nodes) id {node} h = elim (Option-cases (nodes_by_id nodes id)) [
  | inl none_later ↦ ground (arith, h, none_later, eq_refl (node_key first))
  | inr (later, e) ↦ ground (arith, h, e, by_id-has_key nodes id e)
]

find-has_key :
    (p : Node → Bool) (nodes : List Node) {node : Node}
    → find p nodes ≡ some node
    → has_key (node_key node) nodes ≡ true
find-has_key p [] h = cc h
find-has_key p (first ∷ nodes) {node} h = elim (Bool-cases (p first)) [
  | inl holds ↦ ground (arith, h, holds, eq_refl (node_key first))
  | inr fails ↦ ground (arith, h, fails, find-has_key p nodes {node = node})
]

first_of-has_key :
    (nodes : List Node) {node : Node}
    → first_of nodes ≡ some node
    → has_key (node_key node) nodes ≡ true
first_of-has_key [] h = cc h
first_of-has_key (first ∷ nodes) h = ground (arith, h, eq_refl (node_key first))

count-visit :
    (k id : String) (visited ids : List String)
    → contains k visited ≡ false
    → count id ids ≤ (if contains id (k ∷ visited) then 0 else 1)
    → count id (k ∷ ids) ≤ (if contains id visited then 0 else 1)
count-visit k id visited ids new h = elim (String-cases k id) [
  | inl own ↦
      let again : contains id visited ≡ false = rw own at new in
      let none_later : count id ids ≤ 0 = rw (own, eq_refl id) at h in
      ground (arith, again, none_later, own, eq_refl id)
  | inr other ↦ ground (arith, h, other)
]

module _ (str_of : Json → String) (playbook : Document) (incident : JsonFields) where
  abbrev next : Node → Option Node
  next node =
      next_node str_of node (outgoing playbook.edges (node_key node)) playbook.nodes incident

  abbrev is_source : Node → Bool
  is_source node = not (is_incoming playbook.edges (node_key node))

  target-has_key :
      (edge : Option Edge) {node : Node}
      → target playbook.nodes edge ≡ some node
      → has_key (node_key node) playbook.nodes ≡ true
  target-has_key none h = cc h
  target-has_key (some edge) h = by_id-has_key playbook.nodes (str_or_none edge.to_node) h

  step-has_key :
      (node : Node) (edges : List Edge) {after : Node}
      → next_node str_of node edges playbook.nodes incident ≡ some after
      → has_key (node_key after) playbook.nodes ≡ true
  unfolding next_node
  step-has_key node [] h = cc h
  step-has_key node (first ∷ rest) h = elim (Bool-cases (has_type "condition.severity" node)) [
    | inl holds ↦
        target-has_key
          (branch str_of (severity_matches str_of (config_of node) incident) (first ∷ rest))
          (rw (holds, next_node) at h)
    | inr fails ↦
        target-has_key (or_else (find is_default (first ∷ rest)) (some first))
          (rw (fails, next_node) at h)
  ]

  -- Any amount of fuel above the number of nodes that were not visited gives the same walk.
  walk-fuel :
      (fuel more : ℕ) (current : Option Node) (visited : List String)
      → ((node : Node) → current ≡ some node → has_key (node_key node) playbook.nodes ≡ true)
      → fresh visited playbook.nodes < fuel
      → fresh visited playbook.nodes < more
      → walk str_of playbook incident fuel current visited
        ≡ walk str_of playbook incident more current visited
  unfolding walk
  walk-fuel fuel more none visited known a b = refl
  walk-fuel zero more (some node) visited known a b = absurd (omega arith)
  walk-fuel (suc fuel) zero (some node) visited known a b = absurd (omega arith)
  walk-fuel (suc fuel) (suc more) (some node) visited known a b =
      elim (Bool-cases (contains (node_key node) visited)) [
        | inl seen ↦ rw seen refl
        | inr new ↦
            let less = fresh-visit (node_key node) visited playbook.nodes (known node refl) new in
            rw new (
              ap (λ rest. node ∷ rest)
                (walk-fuel fuel more (next node) (node_key node ∷ visited)
                  (λ after h. step-has_key node (outgoing playbook.edges (node_key node)) h)
                  (omega arith) (omega arith)))
      ]

  walk-count :
      (id : String) (fuel : ℕ) (current : Option Node) (visited : List String)
      → count id (map node_key (walk str_of playbook incident fuel current visited))
        ≤ (if contains id visited then 0 else 1)
  unfolding walk
  walk-count id fuel none visited = ground arith
  walk-count id zero (some node) visited = ground arith
  walk-count id (suc fuel) (some node) visited =
      let rest = walk-count id fuel (next node) (node_key node ∷ visited) in
      elim (Bool-cases (contains (node_key node) visited)) [
        | inl seen ↦ rw seen (ground arith)
        | inr new ↦ rw new (
            count-visit (node_key node) id visited
              (map node_key
                (walk str_of playbook incident fuel (next node) (node_key node ∷ visited)))
              new rest)
      ]

  fresh-nothing : (nodes : List Node) → fresh [] nodes ≡ length nodes
  fresh-nothing [] = refl
  fresh-nothing (node ∷ nodes) = ap suc (fresh-nothing nodes)

  first-has_key :
      (node : Node)
      → first_node playbook ≡ some node
      → has_key (node_key node) playbook.nodes ≡ true
  unfolding first_node
  first-has_key node h =
      elim (Option-cases (find (has_type "trigger.incident_created") playbook.nodes)) [
        | inr (trigger, e) ↦
            find-has_key (has_type "trigger.incident_created") playbook.nodes {node = node}
              (cc (e, rw (e, first_node) at h))
        | inl untriggered ↦ elim (Option-cases (find is_source playbook.nodes)) [
          | inr (source, e) ↦
              find-has_key is_source playbook.nodes {node = node}
                (cc (e, rw (untriggered, e, first_node) at h))
          | inl cyclic ↦ first_of-has_key playbook.nodes (rw (untriggered, cyclic, first_node) at h)
        ]
      ]

  -- The walk ends within the rounds given: with any further rounds it is the same.
  pub walk_nodes-walk :
      (more : ℕ)
      → walk str_of playbook incident (suc (length playbook.nodes) + more) (first_node playbook) []
        ≡ walk_nodes str_of playbook incident
  unfolding walk_nodes
  walk_nodes-walk more =
      walk-fuel (suc (length playbook.nodes) + more) (suc (length playbook.nodes))
        (first_node playbook) [] first-has_key (omega (arith, fresh-nothing playbook.nodes))
        (omega (arith, fresh-nothing playbook.nodes))

  -- The walk visits no node id twice.
  pub walk_nodes-count :
      (id : String) → count id (map node_key (walk_nodes str_of playbook incident)) ≤ 1
  unfolding walk_nodes
  walk_nodes-count id = walk-count id (suc (length playbook.nodes)) (first_node playbook) []
