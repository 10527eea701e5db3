-- ===== src/Siem/Models.antt =====
-- apps/siem_kowalski/app/main.py: events, incidents and patches. A time is a number of milliseconds.
-- `datetime` and `dict` values are JSON where they stand inside attributes.
use penguard.Prelude.{ℕ, String, List, Bool, true, false, Option, ◌||◌, if◌then◌else◌}
use penguard.Prelude.Json.{JsonFields}
use penguard.Prelude.Texts.{lower_codes, same_codes}

pub data IncidentStatus : Type 0 where
  opened triaged contained resolved false_positive : IncidentStatus

pub data TriageLevel : Type 0 where
  t1 t2 t3 : TriageLevel

pub data TicketStatus : Type 0 where
  new investigating contained closed : TicketStatus

unfoldable pub status_text : IncidentStatus → String
status_text opened = "open"
status_text triaged = "triaged"
status_text IncidentStatus.contained = "contained"
status_text resolved = "resolved"
status_text false_positive = "false_positive"

unfoldable pub level_text : TriageLevel → String
level_text t1 = "T1"
level_text t2 = "T2"
level_text t3 = "T3"

unfoldable pub ticket_text : TicketStatus → String
ticket_text new = "new"
ticket_text investigating = "investigating"
ticket_text TicketStatus.contained = "contained"
ticket_text closed = "closed"

-- status == "open"
unfoldable pub is_opened : IncidentStatus → Bool
is_opened opened = true
is_opened _ = false

-- status in EXECUTIVE_TERMINAL_STATUSES
unfoldable pub is_terminal : IncidentStatus → Bool
is_terminal opened = false
is_terminal triaged = false
is_terminal _ = true

-- ticket_status in {"contained", "closed"}
unfoldable pub is_done : TicketStatus → Bool
is_done new = false
is_done investigating = false
is_done _ = true

-- text.lower() == name, for a name in lower case
abbrev pub reads : String → String → Bool
reads text name = same_codes (lower_codes text) (lower_codes name)

-- _triage_from_severity
unfoldable pub triage_from_severity : String → TriageLevel
triage_from_severity severity =
    if reads severity "critical" || reads severity "high"
    then t3
    else if reads severity "medium"
    then t2
    else t1

pub record SecurityEvent : Type 0 where
  pub id : Option String
  pub source : String
  pub event_type : String
  pub severity : String
  pub occurred_at : ℕ
  pub entities : JsonFields
  pub attributes : JsonFields

-- The type of an item is "status_change" exactly if it has a status, and "created" otherwise.
pub record TimelineItem : Type 0 where
  pub id : String
  pub status : Option IncidentStatus
  pub message : String
  pub occurred_at : ℕ

pub record Incident : Type 0 where
  pub id : String
  pub rule_id : Option String
  pub title : String
  pub severity : String
  pub status : IncidentStatus
  pub origin : JsonFields
  pub attributes : JsonFields
  pub entities : JsonFields
  pub summary : String
  pub created_at : ℕ
  pub timeline : List TimelineItem
  pub event_ids : List String
  pub triage_level : TriageLevel
  pub ticket_status : TicketStatus
  pub assignee_user_id : Option String
  pub ai_analysis_id : Option String

pub record TriagePatch : Type 0 where
  pub triage_level : Option TriageLevel
  pub ticket_status : Option TicketStatus
  pub assignee_user_id : Option String
  pub ai_analysis_id : Option String
  pub note : Option String
