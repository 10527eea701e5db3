-- ===== src/SoarTests.antt =====
-- Runs of the playbook service (apps/soar_skipper/app) on concrete playbooks, and its theorems at
-- inputs that meet their hypotheses.
use penguard.Prelude.{
  ℕ, String, List, [], ◌∷◌, ◌≡◌, refl, true, false, none, some, map, arith, ◌⊎◌, any, if◌then◌else◌,
  ◌==◌,
}
use penguard.Prelude.Json.{end}
use penguard.Prelude.Counts.{count}
use penguard.Prelude.Tables.{select, insert, taken}
use penguard.Http.{ok, raised, http_error}
use penguard.Soar.Models.{
  Playbook, PlaybookEdge, PlaybookRun, validate_graph, validate_playbook_for_save, fields_in_bounds,
  node_id, node_ids, trigger_incident_created, case_note, approval_required, success,
  waiting_approval, completed,
}
use penguard.Soar.Runtime.{
  ordered_nodes, drained, drain_queue, adjacency, take_node, release, nodes_of, nodes_by_id,
}
use penguard.Soar.Runtime.Order.{Forward}
use penguard.Soar.Runtime.Sorted.{drained-ends, ordered_nodes-count, ordered_nodes-Forward}
use penguard.Soar.Runs.{build_playbook_run}
use penguard.Soar.Runs.Laws.{build_playbook_run-status, needs_approval}
use penguard.Soar.Store.{SoarStore, get_playbook, get_run, save_playbook}
use penguard.Soar.Service.{
  Request, create, delete as delete_request, approve, run, serve, handle, create_playbook,
  model_validate, get_playbook_or_404,
}
use penguard.Soar.Service.Guards.{serve-system}
use penguard.Soar.Service.Invariant.{IsSound, serve-IsSound}
use penguard.Soar.Service.Outcomes.{IsValid}
use penguard.Soar.Defaults.{default_playbooks, port_scan_triage, seed_playbook, seed_playbooks}
use penguard.Soar.Defaults.Seeded.{seeded_in, seed_default_playbooks}
use penguard.Soar.Defaults.Started.{empty, empty-IsSound, served, get_playbook_or_404-served}

abbrev edge : String → String → PlaybookEdge
edge from_node to_node = record {
  id = none;
  from_node = from_node;
  to_node = to_node;
  condition = success;
}

-- Written last to first: the note, the gate, the trigger.
abbrev backwards : Playbook
backwards = record {
  schema_version = 1;
  id = "pb";
  name = "Backwards";
  enabled = true;
  system = false;
  nodes =
      record { id = "note"; type = case_note; config = end }
      ∷ record { id = "gate"; type = approval_required; config = end }
      ∷ record { id = "start"; type = trigger_incident_created; config = end }
      ∷ [];
  edges = edge "gate" "note" ∷ edge "start" "gate" ∷ [];
  runtime_policy = end;
}

abbrev depth : String → ℕ
depth id = if id == "start" then 0 else if id == "gate" then 1 else 2

backwards_valid : validate_graph backwards ≡ none
unfolding validate_graph
backwards_valid = refl

backwards_order : map node_id (ordered_nodes backwards) ≡ "start" ∷ "gate" ∷ "note" ∷ []
unfolding ordered_nodes drained drain_queue adjacency take_node release nodes_of nodes_by_id
backwards_order = refl

drained-ends_example : (drained backwards).queue ≡ []
drained-ends_example = drained-ends backwards backwards_valid

ordered_nodes-count_example :
    count "gate" (map node_id (ordered_nodes backwards)) ≡ count "gate" (node_ids backwards)
ordered_nodes-count_example = ordered_nodes-count backwards backwards_valid "gate"

ordered_nodes-Forward_example : Forward backwards.edges [] (map node_id (ordered_nodes backwards))
ordered_nodes-Forward_example = ordered_nodes-Forward backwards backwards_valid depth (omega arith)

build_playbook_run-status_example :
    (build_playbook_run backwards "inc" 5 "0").status
    ≡ (if any needs_approval (ordered_nodes backwards) then waiting_approval else completed)
build_playbook_run-status_example = build_playbook_run-status backwards "inc" 5 "0"

abbrev gated_run : PlaybookRun
gated_run = build_playbook_run backwards "inc" 5 "0"

abbrev requests : List Request
requests =
    create backwards
    ∷ run "inc" "pb" 5 "0"
    ∷ approve "run_0" 9
    ∷ delete_request "pb_port_scan_triage"
    ∷ []

serve-IsSound_example : IsSound (serve requests empty)
serve-IsSound_example = serve-IsSound requests empty empty-IsSound

abbrev started : SoarStore
started = (seed_playbooks default_playbooks empty).1

-- A store in which a user has a playbook of their own under the id of a built-in.
abbrev own_playbook : Playbook
own_playbook = record port_scan_triage { name = "Mine"; system = false; enabled = true }

abbrev creations : List Request
creations = create own_playbook ∷ create backwards ∷ []

creations-IsSound : IsSound (serve creations empty)
creations-IsSound = serve-IsSound creations empty empty-IsSound

own_there : get_playbook "pb_port_scan_triage" (serve creations empty) ≡ some own_playbook
unfolding get_playbook serve handle create_playbook save_playbook select insert taken validate_graph
    validate_playbook_for_save fields_in_bounds model_validate
own_there = refl

seed_default_playbooks_example :
    ((seed_playbooks default_playbooks (serve creations empty)).0 ≡ ok tt)
    × IsSound (seed_playbooks default_playbooks (serve creations empty)).1
    × (get_playbook "pb_port_scan_triage"
          (seed_playbooks default_playbooks (serve creations empty)).1
        ≡ seeded_in default_playbooks "pb_port_scan_triage"
            (get_playbook "pb_port_scan_triage" (serve creations empty)))
    × (get_run "pb_port_scan_triage" (seed_playbooks default_playbooks (serve creations empty)).1
        ≡ get_run "pb_port_scan_triage" (serve creations empty))
seed_default_playbooks_example =
    seed_default_playbooks (serve creations empty) "pb_port_scan_triage" creations-IsSound

port_scan_there : get_playbook "pb_port_scan_triage" started ≡ some port_scan_triage
unfolding get_playbook seed_playbooks seed_playbook save_playbook select insert
port_scan_there = refl

serve-system_example :
    get_playbook "pb_port_scan_triage" (serve requests started) ≡ some port_scan_triage
serve-system_example =
    serve-system requests started "pb_port_scan_triage" port_scan_triage port_scan_there refl

get_playbook_or_404-served_example :
    ((p : Playbook) × (select Playbook.id "pb_port_scan_triage" default_playbooks ≡ some p)
      × (get_playbook_or_404 "pb_port_scan_triage" (served requests) ≡ (ok p, served requests)))
    ⊎ ((select Playbook.id "pb_port_scan_triage" default_playbooks ≡ none)
        × (get_playbook "pb_port_scan_triage" (served requests) ≡ none)
        × (get_playbook_or_404 "pb_port_scan_triage" (served requests)
            ≡ (raised (http_error 404 "playbook not found"), served requests)))
    ⊎ ((p : Playbook) × (select Playbook.id "pb_port_scan_triage" default_playbooks ≡ none)
        × (get_playbook "pb_port_scan_triage" (served requests) ≡ some p)
        × (p.id ≡ "pb_port_scan_triage")
        × IsValid p
        × (get_playbook_or_404 "pb_port_scan_triage" (served requests) ≡ (ok p, served requests)))
get_playbook_or_404-served_example = get_playbook_or_404-served requests "pb_port_scan_triage"
