-- ===== src/Xdr/Service.antt =====
-- apps/xdr_rico/app/main.py: the authorized event handler, and the requests that the endpoint
-- service answers. A body whose `endpointId` is empty is refused by pydantic before the handler
-- runs. The simulator, which an environment variable switches on, is not among the requests.
pub mod Trace
pub mod ActionIds
use penguard.Prelude.{ℕ, String, List, [], ◌∷◌, Bool, Option, none, some, ◌==◌, if◌then◌else◌}
use penguard.Http.{HttpError, Reply, ok, raised, http_error, Handler, pure, raise_if, ◌>>=◌, ◌>>◌}
use penguard.Xdr.Models.{Endpoint, EventCreate, TimelineItem, ActionKind, ResultStatus, Attributes}
use penguard.Xdr.Store.{XdrStore}
use penguard.Xdr.Enrollment.{
  require_enrollment_token_for_endpoint, create_enrollment, pair_enrollment,
}
use penguard.Xdr.Events.{ingest_endpoint_event}
use penguard.Xdr.Actions.{
  delete_endpoint_handler, create_endpoint_action, claim_endpoint_action, complete_endpoint_action,
}

pub data Request : Type 0 where
  enroll : Option String → Option String → ℕ → String → String → Request
  pair : String → Request
  event : EventCreate → Option String → String → Request
  create_action : String → ActionKind → Attributes → ℕ → String → Request
  claim : String → Option String → ℕ → Request
  complete : String → String → ResultStatus → Attributes → Option String → ℕ → Request
  delete_endpoint : String → Request

module _ (sha256_hex : String → String) where
  unfoldable pub create_authorized_endpoint_event :
      EventCreate → Option String → String → Handler XdrStore (Endpoint × TimelineItem)
  create_authorized_endpoint_event body authorization hex = do
    raise_if (EventCreate.endpoint_id body == "") (http_error 422 "endpointId is too short")
    enrollment ← require_enrollment_token_for_endpoint sha256_hex authorization body.endpoint_id
    ingest_endpoint_event body hex

  -- The store after a request, whatever its reply.
  unfoldable pub handle : Request → XdrStore → XdrStore
  handle (enroll display_name hint now hex token_hex) s =
      (create_enrollment sha256_hex display_name hint now hex token_hex s).1
  handle (pair token) s = (pair_enrollment sha256_hex token s).1
  handle (event body authorization hex) s =
      (create_authorized_endpoint_event body authorization hex s).1
  handle (create_action endpoint_id kind parameters now hex) s =
      (create_endpoint_action endpoint_id kind parameters now hex s).1
  handle (claim endpoint_id authorization now) s =
      (claim_endpoint_action sha256_hex endpoint_id authorization now s).1
  handle (complete endpoint_id action_id status result authorization now) s =
      (complete_endpoint_action sha256_hex endpoint_id action_id status result authorization now
        s).1
  handle (delete_endpoint endpoint_id) s = (delete_endpoint_handler endpoint_id s).1

  unfoldable pub serve : List Request → XdrStore → XdrStore
  serve [] s = s
  serve (request ∷ requests) s = serve requests (handle request s)
