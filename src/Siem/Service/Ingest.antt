-- ===== src/Siem/Service/Ingest.antt =====
-- apps/siem_kowalski/app/main.py, `_ingest_event`: every way in which it ends.
use penguard.Prelude.{
  String, [], ◌∷◌, ◌++◌, ◌≡◌, true, Option, none, some, ◌⊎◌, inl, inr, Option-cases,
}
use penguard.Prelude.Values.{Builtins}
use penguard.Prelude.Tables.{select, insert, is_some, insert-some, insert-none}
use penguard.Http.{Reply, ok, raised, http_error}
use penguard.Siem.Models.{SecurityEvent, Incident}
use penguard.Siem.Store.{
  SiemStore, event_key, event_row, incident_key, incident_row, add_event, add_incident,
}
use penguard.Siem.Detect.{Fresh, detect_incident}
use penguard.Siem.Service.{ingest_event, own_id, enriched}

abbrev pub Result : Type 0
Result = Reply (SecurityEvent × Option Incident) × SiemStore

abbrev crash : {A : Type 0} → Reply A
crash = raised (http_error 500 "Internal Server Error")

-- The store with the event at its end.
abbrev pub with_event : String → SecurityEvent → SiemStore → SiemStore
with_event id event s = record s { events = s.events ++ event_row id event ∷ [] }

abbrev with_incident : Incident → SiemStore → SiemStore
with_incident incident s = record s { incidents = s.incidents ++ incident_row incident ∷ [] }

-- The event's id was taken, and nothing is written.
abbrev pub IsRefused : String → SiemStore → Result → Type 0
IsRefused id s result = (is_some (select event_key id s.events) ≡ true) × (result ≡ (crash, s))

-- The event is written, and what it raises decides the rest.
abbrev pub IsStored : String → SecurityEvent → Option Incident → SiemStore → Result → Type 0
IsStored id event none s result =
    (select event_key id s.events ≡ none) × (result ≡ (ok (event, none), with_event id event s))
IsStored id event (some incident) s result =
    (select event_key id s.events ≡ none)
    × (((select incident_key incident.id s.incidents ≡ none)
          × (result ≡ (ok (event, some incident), with_incident incident (with_event id event s))))
        ⊎ ((is_some (select incident_key incident.id s.incidents) ≡ true)
            × (result ≡ (crash, with_event id event s))))

add_event-cases :
    (id : String) (event : SecurityEvent) (s : SiemStore)
    → ((add_event id event s ≡ none) × (is_some (select event_key id s.events) ≡ true))
      ⊎ ((add_event id event s ≡ some (with_event id event s))
          × (select event_key id s.events ≡ none))
unfolding add_event
add_event-cases id event s =
    let row = event_row id event in
    elim (Option-cases (insert event_key row s.events)) [
      | inl e ↦ inl (rw e, insert-none event_key row s.events e)
      | inr (rows, e) ↦
          let (after, free) = insert-some event_key row s.events e in inr (rw (e, after), free)
    ]

add_incident-cases :
    (incident : Incident) (s : SiemStore)
    → ((add_incident incident s ≡ none)
        × (is_some (select incident_key incident.id s.incidents) ≡ true))
      ⊎ ((add_incident incident s ≡ some (with_incident incident s))
          × (select incident_key incident.id s.incidents ≡ none))
unfolding add_incident
add_incident-cases incident s =
    let row = incident_row incident in
    elim (Option-cases (insert incident_key row s.incidents)) [
      | inl e ↦ inl (rw e, insert-none incident_key row s.incidents e)
      | inr (rows, e) ↦
          let (after, free) = insert-some incident_key row s.incidents e in
          inr (rw (e, after), free)
    ]

-- Every end of an ingestion. If the event's id is taken, the reply is an error 500 and nothing is
-- written. Otherwise the event stands last in the store as it was enriched, and: if it raises no
-- incident, the reply gives the event alone; if it raises one whose id is free, the incident stands
-- last and the reply gives both; if that id is taken, the reply is an error 500, and the event
-- stays written without an incident.
pub ingest_event-cases :
    (py : Builtins) (fresh : Fresh) (event : SecurityEvent) (s : SiemStore)
    → IsRefused (own_id fresh event.id) s (ingest_event py fresh event s)
      ⊎ IsStored
          (own_id fresh event.id)
          (enriched py fresh event s)
          (detect_incident py fresh
            (enriched py fresh event s)
            (with_event (own_id fresh event.id) (enriched py fresh event s) s))
          s
          (ingest_event py fresh event s)
unfolding ingest_event
ingest_event-cases py fresh event s =
    let id = own_id fresh event.id in
    let stored = enriched py fresh event s in
    let after = with_event id stored s in
    elim (add_event-cases id stored s) [
      | inl (e, taken) ↦ inl (taken, rw e)
      | inr (e, free) ↦ elim (Option-cases (detect_incident py fresh stored after)) [
        | inl d ↦ inr (rw d (free, rw (e, d)))
        | inr (incident, d) ↦ elim (add_incident-cases incident after) [
          | inl (k, taken) ↦ inr (rw d (free, inr (taken, rw (e, d, k))))
          | inr (k, unused) ↦ inr (rw d (free, inl (unused, rw (e, d, k))))
        ]
      ]
    ]
