-- ===== src/Siem/Service.antt =====
-- apps/siem_kowalski/app/main.py: the handlers. Each transaction of the store commits by itself.
-- Log lines are left out.
pub mod History
pub mod BruteForce
pub mod Ingest
use penguard.Prelude.{
  ℕ, suc, ◌+◌, String, concat, List, [], ◌∷◌, ◌++◌, Bool, true, false, not, ◌&&◌, Option, none,
  some, ◌==◌, filter, if◌then◌else◌,
}
use penguard.Prelude.Values.{Builtins}
use penguard.Http.{
  HttpError, Reply, ok, raised, http_error, Handler, pure, gets, require, put_state, ◌>>=◌, ◌>>◌,
}
use penguard.Siem.Models.{
  SecurityEvent, Incident, TimelineItem, TriagePatch, IncidentStatus, TriageLevel, TicketStatus,
  status_text, level_text, ticket_text,
}
use penguard.Siem.Store.{
  SiemStore, add_event, list_events, add_incident, list_incidents, get_incident, update_incident,
  reset,
}
use penguard.Siem.Enrich.{enrich_failed_login_burst}
use penguard.Siem.Enrich.Scans.{enrich_allowed_port_scan, enrich_denied_port_scan}
use penguard.Siem.Enrich.Flood.{enrich_http_flood}
use penguard.Siem.Detect.{Fresh, timeline_item, detect_incident}

-- event.id or _new_id("evt")
abbrev pub own_id : Fresh → Option String → String
own_id fresh none = concat "evt_" fresh.event_hex
own_id fresh (some id) = if id == "" then concat "evt_" fresh.event_hex else id

-- The event under its id, through the four enrichments.
unfoldable pub enriched : Builtins → Fresh → SecurityEvent → SiemStore → SecurityEvent
enriched py fresh event store =
    let named : SecurityEvent = record event { id = some (own_id fresh event.id) } in
    let logins = enrich_failed_login_burst py named store in
    let allowed = enrich_allowed_port_scan py logins store in
    let denied = enrich_denied_port_scan py allowed store in enrich_http_flood py denied store

-- Adds the incident, if there is one.
abbrev pub keep_incident : Option Incident → Handler SiemStore (Unit {0})
keep_incident none = pure tt
keep_incident (some incident) = do
  added ← gets (add_incident incident)
  after ← require (http_error 500 "Internal Server Error") added
  put_state after

unfoldable pub ingest_event :
    Builtins → Fresh → SecurityEvent → Handler SiemStore (SecurityEvent × Option Incident)
ingest_event py fresh event = do
  stored_event ← gets (enriched py fresh event)
  added ← gets (add_event (own_id fresh event.id) stored_event)
  after ← require (http_error 500 "Internal Server Error") added
  put_state after
  incident ← gets (detect_incident py fresh stored_event)
  keep_incident incident
  pure (stored_event, incident)

abbrev pub same_level : TriageLevel → TriageLevel → Bool
same_level a b = level_text a == level_text b

abbrev pub same_ticket : TicketStatus → TicketStatus → Bool
same_ticket a b = ticket_text a == ticket_text b

abbrev has_level : Option TriageLevel → Incident → Bool
has_level none incident = true
has_level (some level) incident = same_level incident.triage_level level

abbrev has_ticket : Option TicketStatus → Incident → Bool
has_ticket none incident = true
has_ticket (some ticket) incident = same_ticket incident.ticket_status ticket

unfoldable pub list_incidents_handler :
    Option IncidentStatus
    → Option String
    → Option TriageLevel
    → Option TicketStatus
    → Handler SiemStore (List Incident)
list_incidents_handler status severity triage_level ticket_status = do
  found ← gets (list_incidents status severity)
  pure (filter (has_ticket ticket_status) (filter (has_level triage_level) found))

unfoldable pub get_incident_handler : String → Handler SiemStore Incident
get_incident_handler incident_id = do
  found ← gets (get_incident incident_id)
  require (http_error 404 "Incident not found") found

abbrev pub with_status : Fresh → IncidentStatus → Incident → Incident
with_status fresh status incident = record incident {
  status = status;
  timeline =
      incident.timeline
      ++ timeline_item fresh 0 (some status)
          (concat "Status changed to " (concat (status_text status) "."))
        ∷ [];
}

unfoldable pub update_incident_status : Fresh → String → IncidentStatus → Handler SiemStore Incident
update_incident_status fresh incident_id status = do
  found ← gets (get_incident incident_id)
  incident ← require (http_error 404 "Incident not found") found
  after ← gets (update_incident (with_status fresh status incident))
  put_state after
  pure (with_status fresh status incident)

-- The value that the patch sets, where it sets one that differs, and the note of the change.
unfoldable pub changed_level : Option TriageLevel → TriageLevel → TriageLevel × List String
changed_level none level = (level, [])
changed_level (some level') level = if same_level level' level then (level, []) else (
  level',
  concat "Triage changed from "
        (concat (level_text level) (concat " to " (concat (level_text level') ".")))
      ∷ [],
)

unfoldable pub changed_ticket : Option TicketStatus → TicketStatus → TicketStatus × List String
changed_ticket none ticket = (ticket, [])
changed_ticket (some ticket') ticket = if same_ticket ticket' ticket then (ticket, []) else (
  ticket',
  concat "Ticket status changed from "
        (concat (ticket_text ticket) (concat " to " (concat (ticket_text ticket') ".")))
      ∷ [],
)

abbrev is_text : String → Option String → Bool
is_text text none = false
is_text text (some other) = text == other

unfoldable pub changed_text :
    (String → String) → Option String → Option String → Option String × List String
changed_text message none old = (old, [])
changed_text message (some new) old =
    if is_text new old then (old, []) else (some new, message new ∷ [])

abbrev note_list : Option String → List String
note_list none = []
note_list (some note) = if note == "" then [] else note ∷ []

abbrev assigned_to : String → String
assigned_to user = concat "Assigned to user " (concat user ".")

abbrev analysis_linked : String → String
analysis_linked id = concat "AI analysis linked: " (concat id ".")

unfoldable pub timeline_notes : TriagePatch → Incident → List String
timeline_notes patch incident =
    (changed_level patch.triage_level incident.triage_level).1
    ++ ((changed_ticket patch.ticket_status incident.ticket_status).1
        ++ ((changed_text assigned_to patch.assignee_user_id incident.assignee_user_id).1
            ++ ((changed_text analysis_linked patch.ai_analysis_id incident.ai_analysis_id).1
                ++ note_list patch.note)))

unfoldable pub note_items : Fresh → ℕ → List String → List TimelineItem
note_items fresh index [] = []
note_items fresh index (note ∷ notes) =
    timeline_item fresh index none note ∷ note_items fresh (index + 1) notes

unfoldable pub triaged_incident : Fresh → TriagePatch → Incident → Incident
triaged_incident fresh patch incident = record incident {
  triage_level = (changed_level patch.triage_level incident.triage_level).0;
  ticket_status = (changed_ticket patch.ticket_status incident.ticket_status).0;
  assignee_user_id = (changed_text assigned_to patch.assignee_user_id incident.assignee_user_id).0;
  ai_analysis_id = (changed_text analysis_linked patch.ai_analysis_id incident.ai_analysis_id).0;
  timeline = incident.timeline ++ note_items fresh 0 (timeline_notes patch incident);
}

abbrev pub if_notes : List String → Incident → Incident → Handler SiemStore Incident
if_notes [] incident updated = pure incident
if_notes (_ ∷ _) incident updated = do
  after ← gets (update_incident updated)
  put_state after
  pure updated

-- Each change of a field has its note, so there are updates only if there are notes.
unfoldable pub update_incident_triage : Fresh → String → TriagePatch → Handler SiemStore Incident
update_incident_triage fresh incident_id patch = do
  found ← gets (get_incident incident_id)
  incident ← require (http_error 404 "Incident not found") found
  if_notes (timeline_notes patch incident) incident (triaged_incident fresh patch incident)

pub data Request : Type 0 where
  ingest : Fresh → SecurityEvent → Request
  set_status : Fresh → String → IncidentStatus → Request
  triage : Fresh → String → TriagePatch → Request
  wipe : Request

-- The store after a request, whatever its reply.
unfoldable pub handle : Builtins → Request → SiemStore → SiemStore
handle py (ingest fresh event) s = (ingest_event py fresh event s).1
handle py (set_status fresh incident_id status) s =
    (update_incident_status fresh incident_id status s).1
handle py (triage fresh incident_id patch) s = (update_incident_triage fresh incident_id patch s).1
handle py wipe s = (reset s).1

unfoldable pub serve : Builtins → List Request → SiemStore → SiemStore
serve py [] s = s
serve py (request ∷ requests) s = serve py requests (handle py request s)
