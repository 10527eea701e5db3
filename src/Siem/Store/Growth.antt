-- ===== src/Siem/Store/Growth.antt =====
-- apps/siem_kowalski/app/store.py: what the statements leave of an incident that is stored.
use mathlib.Core.Option
use penguard.Prelude.{
  String, List, [], ◌++◌, ◌≡◌, refl, sym, ap, subst, ◌∙◌, true, false, Option, none, some, ◌==◌,
  eq_iff, arith, inl, inr, Bool-cases, String-cases, Option-cases, append_assoc, append-nil,
  if◌then◌else◌, ℕ,
}
use penguard.Prelude.Json.{JsonFields}
use penguard.Prelude.Tables.{select, insert, insert-some, select-insert, select-update}
use penguard.Siem.Models.{SecurityEvent, Incident, TimelineItem}
use penguard.Siem.Store.{
  SiemStore, event_key, event_row, incident_key, incident_row, add_event, add_incident,
  get_incident, update_incident, written,
}

-- What no request changes of an incident.
record Fixed : Type 0 where
  id : String
  rule_id : Option String
  title : String
  severity : String
  origin : JsonFields
  attributes : JsonFields
  entities : JsonFields
  summary : String
  created_at : ℕ
  event_ids : List String

abbrev fixed : Incident → Fixed
fixed incident = record {
  id = incident.id;
  rule_id = incident.rule_id;
  title = incident.title;
  severity = incident.severity;
  origin = incident.origin;
  attributes = incident.attributes;
  entities = incident.entities;
  summary = incident.summary;
  created_at = incident.created_at;
  event_ids = incident.event_ids;
}

-- The same incident later: its timeline has only grown at the end.
abbrev pub Extends : Incident → Incident → Type 0
Extends old new =
    (fixed new ≡ fixed old) × ((added : List TimelineItem) × (new.timeline ≡ old.timeline ++ added))

abbrev pub Stays : String → Incident → SiemStore → Type 0
Stays id old s = (new : Incident) × ((get_incident id s ≡ some new) × Extends old new)

-- Every incident is found under its own id.
abbrev pub IsKeyed : SiemStore → Type 0
IsKeyed s =
    (id : String) (incident : Incident) → get_incident id s ≡ some incident → incident.id ≡ id

abbrev pub Grows : SiemStore → SiemStore → Type 0
Grows s s' =
    IsKeyed s' × ((id : String) (old : Incident) → get_incident id s ≡ some old → Stays id old s')

pub Extends-refl : (incident : Incident) → Extends incident incident
Extends-refl incident = (refl, ([], sym (append-nil incident.timeline)))

pub Extends-trans : (a b c : Incident) → Extends a b → Extends b c → Extends a c
Extends-trans a b c (same, (added, grown)) (same', (added', grown')) = (
  same' ∙ same,
  (added ++ added', grown' ∙ ap (λ t. t ++ added') grown ∙ append_assoc a.timeline added added'),
)

pub Grows-refl : (s : SiemStore) → IsKeyed s → Grows s s
Grows-refl s keyed = (keyed, λ id old found. (old, (found, Extends-refl old)))

pub Grows-trans : (a b c : SiemStore) → Grows a b → Grows b c → Grows a c
Grows-trans a b c (_, first) (keyed, second) = (
  keyed,
  λ id old found.
      let (mid, (found', e)) = first id old found in
      let (new, (found'', e')) = second id mid found' in
      (new, (found'', Extends-trans old mid new e e')),
)

get_incident-update_incident :
    (id : String) (incident : Incident) (s : SiemStore)
    → get_incident id (update_incident incident s) ≡ (
        if incident.id == id
        then Option.map (λ _. incident) (get_incident id s)
        else get_incident id s)
unfolding get_incident update_incident
get_incident-update_incident id incident s = elim (Bool-cases (incident.id == id)) [
  | inl e ↦ elim (Option-cases (select incident_key id s.incidents)) [
    | inl n ↦
        rw (
          select-update incident_key incident.id id (written incident) s.incidents (λ _. refl),
          e,
          n,
        )
    | inr (row, n) ↦
        rw (
          select-update incident_key incident.id id (written incident) s.incidents (λ _. refl),
          e,
          n,
        )
  ]
  | inr e ↦
      rw (select-update incident_key incident.id id (written incident) s.incidents (λ _. refl), e)
]

get_incident-add_incident :
    (id : String) (incident : Incident) (s : SiemStore) {s' : SiemStore}
    → add_incident incident s ≡ some s'
    → get_incident id s' ≡ (if incident.id == id then some incident else get_incident id s)
unfolding get_incident add_incident
get_incident-add_incident id incident s {s'} h =
    elim (Option-cases (insert incident_key (incident_row incident) s.incidents)) [
      | inl e ↦ cc (rw e at h)
      | inr (rows, e) ↦
          let added : some (record s { incidents = rows }) ≡ some s' = rw e at h in
          let after : record s { incidents = rows } ≡ s' = cc added in
          rw (sym after, select-insert incident_key id (incident_row incident) s.incidents e)
            (ground (arith, eq_iff incident.id id))
    ]

-- An id that an incident is added under was free.
add_incident-free :
    (incident : Incident) (s : SiemStore) {s' : SiemStore}
    → add_incident incident s ≡ some s'
    → get_incident incident.id s ≡ none
unfolding get_incident add_incident
add_incident-free incident s h =
    elim (Option-cases (insert incident_key (incident_row incident) s.incidents)) [
      | inl e ↦ cc (rw e at h)
      | inr (rows, e) ↦ rw (insert-some incident_key (incident_row incident) s.incidents e).1
    ]

-- A store whose incident `incident` is written over as one that extends it.
module _ (id : String) (incident updated : Incident) (s : SiemStore) (keyed : IsKeyed s)
    (found : get_incident id s ≡ some incident) (e : Extends incident updated) where
  own : updated.id ≡ id
  own = ap (λ f. f.id) e.0 ∙ keyed id incident found

  overwritten : get_incident id (update_incident updated s) ≡ some updated
  overwritten =
      let same : (updated.id == id) ≡ true = (eq_iff updated.id id).1 own in
      rw (get_incident-update_incident id updated s, same, found)

  pub update_incident-Grows : Grows s (update_incident updated s)
  update_incident-Grows = (
    λ j other h. elim (String-cases id j) [
      | inl same ↦ cc (own, overwritten)
      | inr differs ↦
          let other_id : (updated.id == j) ≡ false = rw (own, differs) in
          keyed j other (rw (get_incident-update_incident j updated s, other_id) at h)
    ],
    λ j old h. elim (String-cases id j) [
      | inl same ↦
          let first : incident ≡ old = cc (found, h) in
          (updated, (cc overwritten, subst (λ x. Extends x updated) first e))
      | inr differs ↦
          let other_id : (updated.id == j) ≡ false = rw (own, differs) in
          (old, (rw (get_incident-update_incident j updated s, other_id) h, Extends-refl old))
    ],
  )

-- An incident that is added takes no other's place.
pub add_incident-Grows :
    (incident : Incident) (s s' : SiemStore)
    → IsKeyed s
    → add_incident incident s ≡ some s'
    → Grows s s'
add_incident-Grows incident s s' keyed h = (
  λ j other k. elim (String-cases incident.id j) [
    | inl same ↦
        let here : (incident.id == j) ≡ true = (eq_iff incident.id j).1 same in
        cc (rw (get_incident-add_incident j incident s h, here) at k)
    | inr differs ↦ keyed j other (rw (get_incident-add_incident j incident s h, differs) at k)
  ],
  λ j old k. elim (String-cases incident.id j) [
    | inl same ↦
        let free : get_incident j s ≡ none =
          subst (λ x. get_incident x s ≡ none) same (add_incident-free incident s h) in
        absurd (cc (free, k))
    | inr differs ↦
        (old, (rw (get_incident-add_incident j incident s h, differs) k, Extends-refl old))
  ],
)

-- What an event adds leaves the incidents alone.
pub add_event-Grows :
    (id : String) (event : SecurityEvent) (s s' : SiemStore)
    → IsKeyed s
    → add_event id event s ≡ some s'
    → Grows s s'
unfolding add_event get_incident
add_event-Grows id event s s' keyed h =
    elim (Option-cases (insert event_key (event_row id event) s.events)) [
      | inl e ↦ cc (rw e at h)
      | inr (rows, e) ↦
          let added : some (record s { events = rows }) ≡ some s' = rw e at h in
          let after : record s { events = rows } ≡ s' = cc added in
          subst (Grows s) after (Grows-refl s keyed)
    ]
