-- ===== src/Soar/Runs.antt =====
-- apps/soar_skipper/app/runtime.py, `build_playbook_run`, and the new run that
-- `approve_playbook_run` of main.py makes of a run. `uuid4().hex` is the argument `hex`.
pub mod Laws
use penguard.Prelude.{
  ℕ, ◌+◌, String, concat, List, [], ◌∷◌, Bool, true, false, Option, none, some, map, any,
  if◌then◌else◌,
}
use penguard.Soar.Models.{
  PlaybookEdge, Playbook, Status, StepPreview, PlaybookStepRun, PlaybookNodeRun, EdgeTraversal,
  PlaybookRun, completed, waiting_approval,
}
use penguard.Soar.Runtime.{build_step_previews}

-- status == "waiting_approval"
unfoldable pub is_waiting : Status → Bool
is_waiting waiting_approval = true
is_waiting _ = false

abbrev pub step_is_waiting : PlaybookStepRun → Bool
step_is_waiting step = is_waiting step.status

abbrev pub node_is_waiting : PlaybookNodeRun → Bool
node_is_waiting node = is_waiting node.status

unfoldable pub step_runs : ℕ → ℕ → List StepPreview → List PlaybookStepRun
step_runs now index [] = []
step_runs now index (preview ∷ previews) =
    record {
      index = index + 1;
      node_id = preview.node_id;
      node_type = preview.node_type;
      status = preview.status;
      sensitive = preview.sensitive;
      created_at = now;
    }
    ∷ step_runs now (index + 1) previews

unfoldable pub node_runs : ℕ → ℕ → List StepPreview → List PlaybookNodeRun
node_runs now index [] = []
node_runs now index (preview ∷ previews) =
    record {
      index = index + 1;
      node_id = preview.node_id;
      node_type = preview.node_type;
      status = preview.status;
      sensitive = preview.sensitive;
      attempt = 1;
      iteration = 0;
      started_at = now;
      completed_at = if is_waiting preview.status then none else some now;
      error = none;
    }
    ∷ node_runs now (index + 1) previews

unfoldable pub edge_traversals : ℕ → ℕ → List PlaybookEdge → List EdgeTraversal
edge_traversals now index [] = []
edge_traversals now index (edge ∷ edges) =
    record {
      index = index + 1;
      from_node = edge.from_node;
      to_node = edge.to_node;
      condition = edge.condition;
      created_at = now;
    }
    ∷ edge_traversals now (index + 1) edges

unfoldable pub build_playbook_run : Playbook → String → ℕ → String → PlaybookRun
unfolding step_runs node_runs is_waiting edge_traversals build_step_previews
build_playbook_run playbook incident_id now hex =
    let previews = build_step_previews playbook in
    let steps = step_runs now 0 previews in
    record {
      id = concat "run_" hex;
      incident_id = incident_id;
      playbook_id = playbook.id;
      dry_run = true;
      status = if any step_is_waiting steps then waiting_approval else completed;
      steps = steps;
      node_runs = node_runs now 0 previews;
      edge_traversals = edge_traversals now 0 playbook.edges;
      created_at = now;
    }

unfoldable pub approve_step : PlaybookStepRun → PlaybookStepRun
unfolding is_waiting
approve_step step = if step_is_waiting step then record step { status = completed } else step

unfoldable pub approve_node : ℕ → PlaybookNodeRun → PlaybookNodeRun
unfolding is_waiting
approve_node now node =
    if node_is_waiting node
    then record node { status = completed; completed_at = some now }
    else node

-- run.model_copy(update={...})
unfoldable pub approved_run : ℕ → PlaybookRun → PlaybookRun
unfolding approve_step approve_node
approved_run now run = record run {
  status = completed;
  steps = map approve_step run.steps;
  node_runs = map (approve_node now) run.node_runs;
}
