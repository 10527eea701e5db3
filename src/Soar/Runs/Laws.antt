-- ===== src/Soar/Runs/Laws.antt =====
-- What a dry run records, and what its approval changes.
use penguard.Prelude.{
  ℕ, ◌+◌, String, List, [], ◌∷◌, ◌≡◌, refl, Bool, false, ◌||◌, map, any, arith, if◌then◌else◌,
}
use penguard.Soar.Models.{
  PlaybookNode, Playbook, PlaybookStepRun, PlaybookNodeRun, PlaybookRun, completed,
  waiting_approval, is_sensitive, is_approval,
}
use penguard.Soar.Runtime.{ordered_nodes, build_step_previews, status_for_node}
use penguard.Soar.Runs.{
  is_waiting, step_is_waiting, node_is_waiting, step_runs, build_playbook_run, approve_step,
  approve_node, approved_run,
}

abbrev pub needs_approval : PlaybookNode → Bool
needs_approval node = is_sensitive node.type || is_approval node.type

-- Some node of the playbook is sensitive or asks for approval.
steps_waiting :
    (now index : ℕ) (nodes : List PlaybookNode)
    → any step_is_waiting (
        step_runs now index (
          map
            (λ (node : PlaybookNode). record {
              node_id = node.id;
              node_type = node.type;
              status = status_for_node node;
              sensitive = is_sensitive node.type;
            })
            nodes))
      ≡ any needs_approval nodes
unfolding step_runs status_for_node is_waiting
steps_waiting now index [] = refl
steps_waiting now index (node ∷ nodes) = ground (arith, steps_waiting now (index + 1) nodes)

-- A new run waits for approval exactly if one of its nodes is sensitive or an approval gate, and is
-- completed otherwise.
pub build_playbook_run-status :
    (playbook : Playbook) (incident_id : String) (now : ℕ) (hex : String)
    → (build_playbook_run playbook incident_id now hex).status
      ≡ (if any needs_approval (ordered_nodes playbook) then waiting_approval else completed)
unfolding build_playbook_run build_step_previews
build_playbook_run-status playbook incident_id now hex =
    rw (steps_waiting now 0 (ordered_nodes playbook))

-- Nothing of an approved run waits.
steps_settle : (steps : List PlaybookStepRun) → any step_is_waiting (map approve_step steps) ≡ false
unfolding approve_step is_waiting
steps_settle [] = refl
steps_settle (step ∷ steps) = ground (arith, steps_settle steps)

nodes_settle :
    (now : ℕ) (nodes : List PlaybookNodeRun)
    → any node_is_waiting (map (approve_node now) nodes) ≡ false
unfolding approve_node is_waiting
nodes_settle now [] = refl
nodes_settle now (node ∷ nodes) = ground (arith, nodes_settle now nodes)

steps_stay :
    (steps : List PlaybookStepRun)
    → any step_is_waiting steps ≡ false
    → map approve_step steps ≡ steps
unfolding approve_step
steps_stay [] h = refl
steps_stay (step ∷ steps) h = ground (arith, steps_stay steps)

nodes_stay :
    (now : ℕ) (nodes : List PlaybookNodeRun)
    → any node_is_waiting nodes ≡ false
    → map (approve_node now) nodes ≡ nodes
unfolding approve_node
nodes_stay now [] h = refl
nodes_stay now (node ∷ nodes) h = ground (arith, nodes_stay now nodes)

-- An approved run is completed and none of its steps or node runs waits.
pub approved_run-settled :
    (now : ℕ) (run : PlaybookRun)
    → ((approved_run now run).status ≡ completed)
      × (any step_is_waiting (approved_run now run).steps ≡ false)
      × (any node_is_waiting (approved_run now run).node_runs ≡ false)
unfolding approved_run
approved_run-settled now run = (refl, steps_settle run.steps, nodes_settle now run.node_runs)

-- Approving a second time, at whatever time, changes nothing more.
pub approved_run_idem :
    (now later : ℕ) (run : PlaybookRun)
    → approved_run later (approved_run now run) ≡ approved_run now run
unfolding approved_run
approved_run_idem now later run = rw (
  steps_stay (map approve_step run.steps) (steps_settle run.steps),
  nodes_stay later (map (approve_node now) run.node_runs) (nodes_settle now run.node_runs),
)
