-- ===== src/Xdr/Actions.antt =====
-- apps/xdr_rico/app/main.py: the handlers of endpoints and of the actions that an agent is asked to
-- run.
pub mod Queue
pub mod Handout
use penguard.Prelude.{
  ℕ, String, concat, List, [], ◌∷◌, Bool, Option, none, some, ◌==◌, if◌then◌else◌,
}
use penguard.Http.{
  HttpError, Reply, ok, raised, http_error, Handler, pure, gets, require, put_state, ◌>>=◌, ◌>>◌,
}
use penguard.Xdr.Models.{
  Endpoint, TimelineItem, Action, ActionKind, ActionStatus, ResultStatus, Attributes, queued,
  status_of_result,
}
use penguard.Xdr.Store.{
  XdrStore, get_endpoint, delete_endpoint, list_timeline, add_action, list_actions,
  claim_next_action, update_action_result,
}
use penguard.Xdr.Enrollment.{require_enrollment_token_for_endpoint}

unfoldable get_endpoint_or_404 : String → Handler XdrStore Endpoint
get_endpoint_or_404 endpoint_id = do
  found ← gets (get_endpoint endpoint_id)
  require (http_error 404 (concat "Endpoint " (concat endpoint_id " was not found."))) found

unfoldable pub delete_endpoint_handler : String → Handler XdrStore (Unit {0})
unfolding get_endpoint_or_404
delete_endpoint_handler endpoint_id = do
  endpoint ← get_endpoint_or_404 endpoint_id
  after ← gets (delete_endpoint endpoint_id)
  put_state after

unfoldable get_endpoint_timeline : String → Handler XdrStore (List TimelineItem)
unfolding get_endpoint_or_404
get_endpoint_timeline endpoint_id = do
  endpoint ← get_endpoint_or_404 endpoint_id
  gets (list_timeline endpoint_id none)

unfoldable pub create_endpoint_action :
    String → ActionKind → Attributes → ℕ → String → Handler XdrStore Action
unfolding get_endpoint_or_404
create_endpoint_action endpoint_id kind parameters now hex = do
  endpoint ← get_endpoint_or_404 endpoint_id
  let action : Action = record {
    id = concat "act_" hex;
    endpoint_id = endpoint_id;
    kind = kind;
    status = queued;
    parameters = parameters;
    created_at = now;
    claimed_at = none;
    completed_at = none;
    result = [];
  }
  added ← gets (add_action action)
  after ← require (http_error 500 "Internal Server Error") added
  put_state after
  pure action

unfoldable list_endpoint_actions : String → Handler XdrStore (List Action)
unfolding get_endpoint_or_404
list_endpoint_actions endpoint_id = do
  endpoint ← get_endpoint_or_404 endpoint_id
  gets (list_actions endpoint_id)

-- The statement, and then the state that it leaves.
abbrev run_statement : {A : Type 0} → (XdrStore → A × XdrStore) → Handler XdrStore A
run_statement f store = (ok (f store).0, (f store).1)

module _ (sha256_hex : String → String) where
  unfoldable pub claim_endpoint_action :
      String → Option String → ℕ → Handler XdrStore (Option Action)
  claim_endpoint_action endpoint_id authorization now = do
    enrollment ← require_enrollment_token_for_endpoint sha256_hex authorization endpoint_id
    run_statement (claim_next_action endpoint_id now)

  unfoldable pub complete_endpoint_action :
      String → String → ResultStatus → Attributes → Option String → ℕ → Handler XdrStore Action
  complete_endpoint_action endpoint_id action_id status result authorization now = do
    enrollment ← require_enrollment_token_for_endpoint sha256_hex authorization endpoint_id
    updated ←
        run_statement
          (update_action_result endpoint_id action_id (status_of_result status) result now)
    require (http_error 404 (concat "Endpoint action " (concat action_id " was not found.")))
        updated
