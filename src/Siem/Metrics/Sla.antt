-- ===== src/Siem/Metrics/Sla.antt =====
-- apps/siem_kowalski/app/main.py, `_executive_sla`: open incidents by their age.
pub mod Buckets
use penguard.Prelude.{
  ℕ, suc, ◌+◌, ◌*◌, ◌-◌, String, List, [], ◌∷◌, Bool, true, false, not, ◌&&◌, Option, none, some,
  leb, sort_by, if◌then◌else◌,
}
use penguard.Siem.Models.{Incident, TicketStatus, TriageLevel, is_terminal, is_done}

pub data Bucket : Type 0 where
  red amber : Bucket

pub record Breach : Type 0 where
  pub id : String
  pub title : String
  pub severity : String
  pub ticket_status : TicketStatus
  pub triage_level : TriageLevel
  pub age_ms : ℕ
  pub bucket : Bucket
  pub rule_id : Option String

pub record Sla : Type 0 where
  pub breaches : List Breach
  pub red_count : ℕ
  pub amber_count : ℕ
  pub open_count : ℕ

-- max(0, end - start), in milliseconds
unfoldable pub duration_ms : ℕ → ℕ → ℕ
duration_ms start end = end - start

unfoldable pub is_open_for_sla : Incident → Bool
is_open_for_sla incident = not (is_terminal incident.status) && not (is_done incident.ticket_status)

unfoldable pub bucket_of : ℕ → Option Bucket
bucket_of age =
    if leb (60 * 60 * 1000) age
    then some red
    else if leb (15 * 60 * 1000) age
    then some amber
    else none

abbrev pub breach : Incident → ℕ → Bucket → Breach
breach incident age bucket = record {
  id = incident.id;
  title = incident.title;
  severity = incident.severity;
  ticket_status = incident.ticket_status;
  triage_level = incident.triage_level;
  age_ms = age;
  bucket = bucket;
  rule_id = incident.rule_id;
}

-- What an open incident adds to the rest.
abbrev pub add_open : Incident → ℕ → Option Bucket → Sla → Sla
add_open incident age none sla = record sla { open_count = suc sla.open_count }
add_open incident age (some red) sla = record sla {
  breaches = breach incident age red ∷ sla.breaches;
  red_count = suc sla.red_count;
  open_count = suc sla.open_count;
}
add_open incident age (some amber) sla = record sla {
  breaches = breach incident age amber ∷ sla.breaches;
  amber_count = suc sla.amber_count;
  open_count = suc sla.open_count;
}

-- The loop over the incidents, whose breaches stand in their order.
unfoldable pub sla_counts : ℕ → List Incident → Sla
sla_counts now [] = record { breaches = []; red_count = 0; amber_count = 0; open_count = 0 }
sla_counts now (incident ∷ incidents) =
    let age = duration_ms incident.created_at now in
    let rest = sla_counts now incidents in
    if is_open_for_sla incident then add_open incident age (bucket_of age) rest else rest

abbrev pub older : Breach → Breach → Bool
older a b = leb b.age_ms a.age_ms

unfoldable pub executive_sla : ℕ → List Incident → Sla
executive_sla now incidents =
    let sla = sla_counts now incidents in record sla { breaches = sort_by older sla.breaches }
