-- ===== src/SiemTests.antt =====
-- Runs of the event service (apps/siem_kowalski/app) on concrete input, and its theorems there. No
-- text stands for a number here, and a value that is no text reads as "?".
use mathlib.Core.Option
use penguard.Prelude.{
  ℕ, String, List, [], ◌∷◌, ◌≡◌, refl, none, some, leb, arith, ◌⊎◌, if◌then◌else◌,
}
use penguard.Prelude.Json.{pos, JsonFields, num, str, end, field}
use penguard.Prelude.Descending.{Descending}
use penguard.Prelude.Values.{Builtins}
use penguard.Siem.Models.{SecurityEvent, Incident, resolved, t1, TriagePatch}
use penguard.Siem.Rules.{DetectionRule, match_all, matches_rule}
use penguard.Siem.Store.{get_incident, add_event, add_incident}
use penguard.Siem.Detect.{Fresh, incident_of, detect_incident, has_open_duplicate_incident}
use penguard.Prelude.Tables.{select, insert}
use penguard.Siem.Enrich.{enrich_failed_login_burst}
use penguard.Siem.Enrich.Flood.{enrich_http_flood}
use penguard.Siem.Enrich.Scans.{
  Flow, enrich_flow, enrich_allowed_port_scan, enrich_denied_port_scan, is_forwarded_scan_action,
}
use penguard.Siem.Enrich.Ports.{IsScan, recent, enrich_flow-cases}
use penguard.Siem.Service.{
  Request, ingest, set_status, triage, serve, ingest_event, enriched, handle,
}
use penguard.Siem.Store.Growth.{Stays}
use penguard.Siem.Service.History.{empty_store, serve-Extends}
use penguard.Siem.Service.BruteForce.{logins, login-detected}
use penguard.Siem.Service.Ingest.{IsRefused, IsStored, with_event, ingest_event-cases}
use penguard.Siem.Metrics.Sla.{executive_sla}
use penguard.Siem.Metrics.Sla.Buckets.{Counts, age_of, executive_sla-Counts}
use penguard.Siem.Metrics.Executive.{executive_metrics, Agree, executive_metrics-Agree}
use penguard.Siem.Metrics.Times.{average_ms, median_ms}
use penguard.Siem.Metrics.Times.Bounds.{Between, average-median-Between}

abbrev py : Builtins
py = record { str_of = λ _. "?"; float_of = λ _. none }

abbrev fresh : Fresh
fresh = record { event_hex = "a"; incident_hex = "b"; item_hex = λ _. "c"; now = 1000 }

abbrev event : String → ℕ → JsonFields → SecurityEvent
event event_type occurred_at attributes = record {
  id = none;
  source = "xdr_rico";
  event_type = event_type;
  severity = "low";
  occurred_at = occurred_at;
  entities = field "user" (str "ana") end;
  attributes = attributes;
}

abbrev connection : SecurityEvent
connection = event "endpoint.suspicious_connection" 900 end

abbrev connection_rule : DetectionRule
connection_rule = record {
  id = "suspicious_endpoint_connection";
  title = "Suspicious endpoint connection";
  summary = "Endpoint telemetry reported a suspicious connection.";
  severity = some "high";
  event_types = "endpoint.suspicious_connection" ∷ [];
  match = match_all;
  conditions = [];
}

abbrev raised : Incident
raised = incident_of fresh (record connection { id = some "evt_a" }) "evt_a" connection_rule

abbrev first_requests : List Request
first_requests = ingest fresh connection ∷ []

abbrev patch : TriagePatch
patch = record {
  triage_level = some t1;
  ticket_status = none;
  assignee_user_id = none;
  ai_analysis_id = none;
  note = some "seen";
}

abbrev more_requests : List Request
more_requests = set_status fresh "inc_b" resolved ∷ triage fresh "inc_b" patch ∷ []

-- The incident that the first request raises.
raised-stored : get_incident "inc_b" (serve py first_requests empty_store) ≡ some raised
unfolding serve handle ingest_event get_incident enriched enrich_failed_login_burst
    enrich_allowed_port_scan enrich_denied_port_scan enrich_http_flood add_event add_incident
    detect_incident matches_rule has_open_duplicate_incident incident_of select insert
raised-stored = refl

serve-Extends_example :
    Stays "inc_b" raised (serve py more_requests (serve py first_requests empty_store))
serve-Extends_example =
    serve-Extends py first_requests more_requests "inc_b" raised raised-stored refl

abbrev login : SecurityEvent
login = event "auth.failed_login" 900 (field "count" (num (pos 4)) end)

login-detected_example :
    Option.map
      (λ (incident : Incident). incident.rule_id)
      (detect_incident py fresh (enriched py fresh login empty_store) empty_store)
    ≡ (if leb 3 (logins py (record login { id = some "evt_a" }) empty_store)
        then some (some "repeated_failed_login")
        else none)
login-detected_example = login-detected py fresh login empty_store empty_store refl

average-median-Between_example :
    ((average : ℕ) × ((average_ms (10 ∷ 20 ∷ 45 ∷ []) ≡ some average) × Between 10 45 average))
    × ((median : ℕ) × ((median_ms (10 ∷ 20 ∷ 45 ∷ []) ≡ some median) × Between 10 45 median))
average-median-Between_example =
    average-median-Between 10 45 10 (20 ∷ 45 ∷ [])
      ((omega arith, omega arith), ((omega arith, omega arith), ((omega arith, omega arith), tt)))

executive_sla-Counts_example :
    Counts 5000000 (raised ∷ []) (executive_sla 5000000 (raised ∷ []))
    × Descending age_of (executive_sla 5000000 (raised ∷ [])).breaches
executive_sla-Counts_example = executive_sla-Counts 5000000 (raised ∷ [])

ingest_event-cases_example :
    IsRefused "evt_a" empty_store (ingest_event py fresh login empty_store)
    ⊎ IsStored "evt_a"
        (enriched py fresh login empty_store)
        (detect_incident py fresh
          (enriched py fresh login empty_store)
          (with_event "evt_a" (enriched py fresh login empty_store) empty_store))
        empty_store
        (ingest_event py fresh login empty_store)
ingest_event-cases_example = ingest_event-cases py fresh login empty_store

abbrev flow : Flow
flow = record {
  integration_id = str "fw";
  source_ip = str "10.0.0.1";
  destination_ip = str "10.0.0.2";
  destination_port = pos 22;
}

abbrev traffic : SecurityEvent
traffic = event "network.event" 900 (field "destinationPort" (num (pos 22)) end)

enrich_flow-cases_example :
    (enrich_flow py "allowed_port_scan" "network.event"
        (is_forwarded_scan_action py)
        (some flow)
        traffic
        empty_store
      ≡ traffic)
    ⊎ IsScan py "allowed_port_scan"
        (is_forwarded_scan_action py)
        traffic
        flow
        (recent "network.event" empty_store)
        (enrich_flow py "allowed_port_scan" "network.event"
          (is_forwarded_scan_action py)
          (some flow)
          traffic
          empty_store)
enrich_flow-cases_example =
    enrich_flow-cases py "allowed_port_scan" "network.event" (is_forwarded_scan_action py) flow
      traffic empty_store

executive_metrics-Agree_example :
    Agree (executive_metrics py "1h" 5 5000000 none none (serve py first_requests empty_store))
executive_metrics-Agree_example =
    executive_metrics-Agree py "1h" 5 5000000 none none (serve py first_requests empty_store)
