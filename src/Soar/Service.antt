-- ===== src/Soar/Service.antt =====
-- apps/soar_skipper/app/main.py: the handlers. The body of a request is validated by pydantic
-- before the handler runs (422), and a payload that is read back is validated again (500).
-- `uuid4().hex` and `datetime.now` are arguments. Log lines are left out.
pub mod Outcomes
pub mod Guards
pub mod Invariant
use penguard.Prelude.{
  ℕ, String, concat, List, [], ◌∷◌, Bool, true, false, not, ◌&&◌, Option, none, some, ◌==◌, map,
  if◌then◌else◌,
}
use penguard.Http.{
  HttpError, Reply, ok, raised, http_error, Handler, pure, raise, gets, lift, require, raise_if,
  put_state, ◌>>=◌, ◌>>◌,
}
use penguard.Soar.Models.{
  Playbook, PlaybookRun, StepPreview, Status, fields_in_bounds, validate_graph,
  validate_playbook_for_save,
}
use penguard.Soar.Runtime.{build_step_previews}
use penguard.Soar.Runs.{build_playbook_run, approved_run}
use penguard.Soar.Store.{
  SoarStore, get_playbook, list_playbooks, save_playbook, update_playbook, delete_playbook, get_run,
  list_runs, save_run, update_run,
}

abbrev is_none {ℓ} : {A : Type ℓ} → Option A → Bool
is_none none = true
is_none (some _) = false

abbrev pub is_empty {ℓ} : {A : Type ℓ} → List A → Bool
is_empty [] = true
is_empty (_ ∷ _) = false

-- Playbook.model_validate
unfoldable pub model_validate : HttpError → Playbook → Reply Playbook
model_validate error playbook =
    if fields_in_bounds playbook && is_none (validate_graph playbook)
    then ok playbook
    else raised error

abbrev pub invalid_body : HttpError
invalid_body = http_error 422 "request body is not a valid playbook"

abbrev pub server_error : HttpError
server_error = http_error 500 "Internal Server Error"

abbrev pub commit : Option SoarStore → Handler SoarStore (Unit {0})
commit none s = (raised server_error, s)
commit (some s') s = (ok tt, s')

unfoldable pub get_playbook_or_404 : String → Handler SoarStore Playbook
get_playbook_or_404 playbook_id = do
  found ← gets (get_playbook playbook_id)
  payload ← require (http_error 404 "playbook not found") found
  lift (model_validate server_error payload)

unfoldable pub create_playbook : Playbook → Handler SoarStore Playbook
create_playbook body = do
  playbook ← lift (model_validate invalid_body body)
  existing ← gets (get_playbook playbook.id)
  raise_if (not (is_none existing))
      (http_error 400 (concat "playbook " (concat playbook.id " already exists")))
  let own : Playbook = record playbook { system = false }
  raise_if (not (is_empty (validate_playbook_for_save own)))
      (record { status = 422; detail = validate_playbook_for_save own })
  saved ← gets (save_playbook own.id own)
  commit saved
  pure own

unfoldable pub update_playbook_handler : String → Playbook → Handler SoarStore Playbook
unfolding get_playbook_or_404
update_playbook_handler playbook_id body = do
  playbook ← lift (model_validate invalid_body body)
  raise_if (not (playbook.id == playbook_id)) (http_error 400 "playbook id must match path")
  existing ← get_playbook_or_404 playbook_id
  raise_if existing.system (http_error 409 "system playbooks are read-only")
  let own : Playbook = record playbook { system = existing.system }
  raise_if (not (is_empty (validate_playbook_for_save own)))
      (record { status = 422; detail = validate_playbook_for_save own })
  s ← gets (update_playbook playbook_id own)
  put_state s
  pure own

unfoldable pub delete_playbook_handler : String → Handler SoarStore (Unit {0})
unfolding get_playbook_or_404
delete_playbook_handler playbook_id = do
  playbook ← get_playbook_or_404 playbook_id
  raise_if playbook.system (http_error 409 "system playbooks cannot be deleted")
  s ← gets (delete_playbook playbook_id)
  put_state s

unfoldable pub simulate_playbook : String → Handler SoarStore (List StepPreview)
unfolding get_playbook_or_404
simulate_playbook playbook_id = do
  playbook ← get_playbook_or_404 playbook_id
  pure (build_step_previews playbook)

unfoldable pub run_playbook : String → String → ℕ → String → Handler SoarStore PlaybookRun
unfolding get_playbook_or_404
run_playbook incident_id playbook_id now hex = do
  playbook ← get_playbook_or_404 playbook_id
  let run : PlaybookRun = build_playbook_run playbook incident_id now hex
  saved ← gets (save_run run run.incident_id run.playbook_id run.status run.created_at)
  commit saved
  pure run

unfoldable get_playbook_run : String → Handler SoarStore PlaybookRun
get_playbook_run run_id = do
  found ← gets (get_run run_id)
  require (http_error 404 "playbook run not found") found

unfoldable pub approve_playbook_run : String → ℕ → Handler SoarStore PlaybookRun
approve_playbook_run run_id now = do
  found ← gets (get_run run_id)
  run ← require (http_error 404 "playbook run not found") found
  s ← gets (update_run (approved_run now run) (approved_run now run).status)
  put_state s
  pure (approved_run now run)

unfoldable list_playbook_runs : Option Status → Handler SoarStore (List PlaybookRun)
list_playbook_runs status = gets (list_runs status)

-- The requests that the service answers.
pub data Request : Type 0 where
  create : Playbook → Request
  update : String → Playbook → Request
  delete : String → Request
  simulate : String → Request
  run : String → String → ℕ → String → Request
  approve : String → ℕ → Request

-- The store after a request, whatever its reply.
unfoldable pub handle : Request → SoarStore → SoarStore
handle (create body) s = (create_playbook body s).1
handle (update playbook_id body) s = (update_playbook_handler playbook_id body s).1
handle (delete playbook_id) s = (delete_playbook_handler playbook_id s).1
handle (simulate playbook_id) s = (simulate_playbook playbook_id s).1
handle (run incident_id playbook_id now hex) s = (run_playbook incident_id playbook_id now hex s).1
handle (approve run_id now) s = (approve_playbook_run run_id now s).1

unfoldable pub serve : List Request → SoarStore → SoarStore
serve [] s = s
serve (request ∷ requests) s = serve requests (handle request s)
