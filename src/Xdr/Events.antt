-- ===== src/Xdr/Events.antt =====
-- apps/xdr_rico/app/main.py, `ingest_endpoint_event`: what an agent's event does to the endpoint's
-- record and timeline. The title of a timeline item, a display form of its type, is left out.
use penguard.Prelude.{String, concat, [], Option, none, some, ◌==◌, if◌then◌else◌}
use penguard.Http.{http_error, Handler, pure, gets, require, put_state, ◌>>=◌, ◌>>◌}
use penguard.Xdr.Models.{Endpoint, EventCreate, TimelineItem, merge, new_endpoint}
use penguard.Xdr.Store.{XdrStore, get_endpoint, upsert_endpoint, add_timeline_item}

-- new or old, for texts: None and "" are false
abbrev text_or : Option String → Option String → Option String
text_or none old = old
text_or (some new) old = if new == "" then old else some new

abbrev value_or {ℓ} : {A : Type ℓ} → Option A → A → A
value_or none old = old
value_or (some new) old = new

unfoldable pub updated_endpoint : EventCreate → Endpoint → Endpoint
updated_endpoint event endpoint = record {
  id = endpoint.id;
  hostname = text_or event.hostname endpoint.hostname;
  ip_addresses = value_or event.ip_addresses endpoint.ip_addresses;
  current_user = text_or event.current_user endpoint.current_user;
  last_seen_at = some event.occurred_at;
  health = value_or event.health endpoint.health;
  attributes = merge endpoint.attributes event.attributes;
}

abbrev timeline_item : EventCreate → String → TimelineItem
timeline_item event hex = record {
  id = concat "tl_" hex;
  endpoint_id = event.endpoint_id;
  event_type = event.event_type;
  occurred_at = event.occurred_at;
  hostname = event.hostname;
  ip_addresses = value_or event.ip_addresses [];
  current_user = event.current_user;
  health = event.health;
  attributes = event.attributes;
}

unfoldable pub ingest_endpoint_event :
    EventCreate → String → Handler XdrStore (Endpoint × TimelineItem)
ingest_endpoint_event event hex = do
  found ← gets (get_endpoint event.endpoint_id)
  let endpoint : Endpoint = updated_endpoint event (value_or found (new_endpoint event.endpoint_id))
  stored ← gets (upsert_endpoint endpoint)
  put_state stored
  let item : TimelineItem = record (timeline_item event hex) { endpoint_id = endpoint.id }
  added ← gets (add_timeline_item item)
  after ← require (http_error 500 "Internal Server Error") added
  put_state after
  pure (endpoint, item)
