-- ===== src/Siem/Service/History.antt =====
-- apps/siem_kowalski/app: what the requests leave of an incident that is stored.
use penguard.Prelude.{
  String, List, [], ◌∷◌, ◌≡◌, refl, Bool, true, false, Option, none, some, arith, any, inl, inr,
  Option-cases,
}
use penguard.Prelude.Values.{Builtins}
use penguard.Prelude.Tables.{select}
use penguard.Http.{Reply-cases}
use penguard.Siem.Models.{SecurityEvent, Incident, IncidentStatus, TriagePatch}
use penguard.Siem.Store.{SiemStore, add_event, add_incident, get_incident, reset}
use penguard.Siem.Store.Growth.{
  Extends, Stays, IsKeyed, Grows, Grows-refl, Grows-trans, update_incident-Grows,
  add_incident-Grows, add_event-Grows,
}
use penguard.Siem.Detect.{Fresh, detect_incident}
use penguard.Siem.Service.{
  Request, ingest, set_status, triage, wipe, handle, serve, ingest_event, update_incident_status,
  update_incident_triage, with_status, triaged_incident, keep_incident, own_id, enriched, if_notes,
  timeline_notes,
}

with_status-Extends :
    (fresh : Fresh) (status : IncidentStatus) (incident : Incident)
    → Extends incident (with_status fresh status incident)
with_status-Extends fresh status incident = (refl, (_, refl))

triaged_incident-Extends :
    (fresh : Fresh) (patch : TriagePatch) (incident : Incident)
    → Extends incident (triaged_incident fresh patch incident)
unfolding triaged_incident
triaged_incident-Extends fresh patch incident = (refl, (_, refl))

update_incident_status-Grows :
    (fresh : Fresh) (id : String) (status : IncidentStatus) (s : SiemStore)
    → IsKeyed s
    → Grows s (update_incident_status fresh id status s).1
unfolding update_incident_status
update_incident_status-Grows fresh id status s keyed = elim (Option-cases (get_incident id s)) [
  | inl e ↦ rw e (Grows-refl s keyed)
  | inr (incident, e) ↦ rw e (
      update_incident-Grows id incident (with_status fresh status incident) s keyed e
        (with_status-Extends fresh status incident))
]

if_notes-Grows :
    (notes : List String) (id : String) (incident updated : Incident) (s : SiemStore)
    → IsKeyed s
    → get_incident id s ≡ some incident
    → Extends incident updated
    → Grows s (if_notes notes incident updated s).1
if_notes-Grows [] id incident updated s keyed found e = Grows-refl s keyed
if_notes-Grows (_ ∷ _) id incident updated s keyed found e =
    update_incident-Grows id incident updated s keyed found e

update_incident_triage-Grows :
    (fresh : Fresh) (id : String) (patch : TriagePatch) (s : SiemStore)
    → IsKeyed s
    → Grows s (update_incident_triage fresh id patch s).1
unfolding update_incident_triage
update_incident_triage-Grows fresh id patch s keyed = elim (Option-cases (get_incident id s)) [
  | inl e ↦ rw e (Grows-refl s keyed)
  | inr (incident, e) ↦ rw e (
      if_notes-Grows (timeline_notes patch incident) id incident
        (triaged_incident fresh patch incident) s keyed e
        (triaged_incident-Extends fresh patch incident))
]

keep_incident-Grows :
    (incident : Option Incident) (s : SiemStore) → IsKeyed s → Grows s (keep_incident incident s).1
keep_incident-Grows none s keyed = Grows-refl s keyed
keep_incident-Grows (some incident) s keyed = elim (Option-cases (add_incident incident s)) [
  | inl e ↦ rw e (Grows-refl s keyed)
  | inr (s', e) ↦ rw e (add_incident-Grows incident s s' keyed e)
]

-- Storing an event, and then the incident that it raises.
ingest_event-Grows :
    (py : Builtins) (fresh : Fresh) (event : SecurityEvent) (s : SiemStore)
    → IsKeyed s
    → Grows s (ingest_event py fresh event s).1
unfolding ingest_event
ingest_event-Grows py fresh event s keyed =
    let stored = enriched py fresh event s in
    elim (Option-cases (add_event (own_id fresh event.id) stored s)) [
      | inl e ↦ rw e (Grows-refl s keyed)
      | inr (s', e) ↦
          let first = add_event-Grows (own_id fresh event.id) stored s s' keyed e in
          let second = keep_incident-Grows (detect_incident py fresh stored s') s' first.0 in
          rw e (elim (Reply-cases (keep_incident (detect_incident py fresh stored s') s').0) [
            | inl (_, k) ↦ rw k (Grows-trans s s' _ first second)
            | inr (_, k) ↦ rw k (Grows-trans s s' _ first second)
          ])
    ]

abbrev pub is_wipe : Request → Bool
is_wipe wipe = true
is_wipe (ingest _ _) = false
is_wipe (set_status _ _ _) = false
is_wipe (triage _ _ _) = false

handle-Grows :
    (py : Builtins) (request : Request) (s : SiemStore)
    → IsKeyed s
    → is_wipe request ≡ false
    → Grows s (handle py request s)
unfolding handle
handle-Grows py (ingest fresh event) s keyed h = ingest_event-Grows py fresh event s keyed
handle-Grows py (set_status fresh id status) s keyed h =
    update_incident_status-Grows fresh id status s keyed
handle-Grows py (triage fresh id patch) s keyed h =
    update_incident_triage-Grows fresh id patch s keyed
handle-Grows py wipe s keyed h = cc h

handle-IsKeyed :
    (py : Builtins) (request : Request) (s : SiemStore) → IsKeyed s → IsKeyed (handle py request s)
unfolding handle reset get_incident select
handle-IsKeyed py (ingest fresh event) s keyed = (ingest_event-Grows py fresh event s keyed).0
handle-IsKeyed py (set_status fresh id status) s keyed =
    (update_incident_status-Grows fresh id status s keyed).0
handle-IsKeyed py (triage fresh id patch) s keyed =
    (update_incident_triage-Grows fresh id patch s keyed).0
handle-IsKeyed py wipe s keyed = λ id incident h. cc h

abbrev pub empty_store : SiemStore
empty_store = record { events = []; incidents = [] }

serve-IsKeyed :
    (py : Builtins) (requests : List Request) (s : SiemStore)
    → IsKeyed s
    → IsKeyed (serve py requests s)
unfolding serve
serve-IsKeyed py [] s keyed = keyed
serve-IsKeyed py (request ∷ requests) s keyed =
    serve-IsKeyed py requests (handle py request s) (handle-IsKeyed py request s keyed)

serve-Grows :
    (py : Builtins) (requests : List Request) (s : SiemStore)
    → IsKeyed s
    → any is_wipe requests ≡ false
    → Grows s (serve py requests s)
unfolding serve
serve-Grows py [] s keyed h = Grows-refl s keyed
serve-Grows py (request ∷ requests) s keyed h =
    let here : is_wipe request ≡ false = ground arith in
    let later : any is_wipe requests ≡ false = ground arith in
    let first = handle-Grows py request s keyed here in
    Grows-trans s (handle py request s) (serve py requests (handle py request s)) first
      (serve-Grows py requests (handle py request s) first.0 later)

empty_store-IsKeyed : IsKeyed empty_store
unfolding get_incident select
empty_store-IsKeyed id incident h = cc h

-- The audit trail: after any requests from an empty store, if an incident is stored, then after any
-- more requests with no reset among them it is still stored under its id, with the same rule,
-- title, severity, origin, attributes, entities, summary, time and events, and its timeline is the
-- old one with items added at its end.
pub serve-Extends :
    (py : Builtins) (requests more : List Request) (id : String) (old : Incident)
    → get_incident id (serve py requests empty_store) ≡ some old
    → any is_wipe more ≡ false
    → Stays id old (serve py more (serve py requests empty_store))
serve-Extends py requests more id old found h =
    let s = serve py requests empty_store in
    (serve-Grows py more s (serve-IsKeyed py requests empty_store empty_store-IsKeyed) h).1 id old
      found
