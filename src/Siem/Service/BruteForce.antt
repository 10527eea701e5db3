-- ===== src/Siem/Service/BruteForce.antt =====
-- apps/siem_kowalski/app/main.py: what becomes of a failed login that is ingested, from the
-- enrichments to the rule that it matches.
use mathlib.Core.Option
use penguard.Prelude.{
  ℕ, zero, suc, ◌+◌, String, List, [], ◌∷◌, ◌++◌, ◌≡◌, refl, ap, ◌∙◌, Bool, true, false, not, ◌||◌,
  Option, none, some, ◌==◌, arith, leb, ltb, inl, inr, Bool-cases, find, if◌then◌else◌,
}
use penguard.Prelude.Json.{ℤ, pos, negsuc, num}
use penguard.Prelude.Values.{Builtins, value_of, value_of-set_field}
use penguard.Prelude.Texts.{split}
use penguard.Siem.Models.{SecurityEvent, Incident}
use penguard.Siem.Rules.{
  DetectionRule, detection_rules, matches_rule, matches_condition, value_at_path, at_segments,
  holds, coerce_number, at_or_above,
}
use penguard.Siem.Store.{SiemStore, list_events}
use penguard.Siem.Enrich.{
  attribute, positive_count, outside, same_auth_subject, failed_login_event_count, failed_logins,
  mark_brute_force, enrich_failed_login_burst, id_list,
}
use penguard.Siem.Enrich.Scans.{enrich_allowed_port_scan, enrich_denied_port_scan}
use penguard.Siem.Enrich.Flood.{enrich_http_flood}
use penguard.Siem.Detect.{
  Fresh, detect_incident, has_open_duplicate_incident, incident_of, raised_by,
}
use penguard.Siem.Service.{enriched, own_id}

-- All that the earlier failed logins count for, of the same subject and in the last five minutes.
unfoldable burst : Builtins → SecurityEvent → List SecurityEvent → ℕ
burst py event [] = 0
burst py event (previous ∷ rest) =
    let later = burst py event rest in
    if outside 300000 event previous || not (same_auth_subject event previous)
    then later
    else failed_login_event_count py previous + later

-- The loop ends at three, or has the whole count.
failed_logins-burst :
    (py : Builtins) (event : SecurityEvent) (previous : List SecurityEvent) (total : ℕ)
    (ids : List String)
    → leb 3 (failed_logins py event previous total ids).0 ≡ leb 3 (total + burst py event previous)
unfolding failed_logins burst
failed_logins-burst py event [] total ids = ground arith
failed_logins-burst py event (previous ∷ rest) total ids =
    let count = failed_login_event_count py previous in
    elim (Bool-cases (outside 300000 event previous || not (same_auth_subject event previous))) [
      | inl e ↦ rw e (failed_logins-burst py event rest total ids)
      | inr e ↦ rw e (elim (Bool-cases (leb 3 (total + count))) [
        | inl k ↦ rw k (ground arith)
        | inr k ↦
            let later =
              failed_logins-burst py event rest (total + count) (ids ++ id_list previous.id) in
            rw (k, later) (ground arith)
      ])
    ]

-- The rule that a failed login matches first goes by its count alone.
find-login :
    (py : Builtins) (event : SecurityEvent)
    → event.event_type ≡ "auth.failed_login"
    → Option.map (λ (rule : DetectionRule). rule.id) (find (matches_rule py event) detection_rules)
      ≡ (if at_or_above (coerce_number py (value_of "count" event.attributes)) (some (pos 3))
          then some "repeated_failed_login"
          else none)
unfolding matches_rule matches_condition value_at_path at_segments holds split coerce_number
find-login py event h =
    let count = coerce_number py (value_of "count" event.attributes) in
    elim (Bool-cases (at_or_above count (some (pos 3)))) [ inl e ↦ rw (h, e) | inr e ↦ rw (h, e) ]

at_or_above-positive_count :
    (number : Option ℤ) → at_or_above number (some (pos 3)) ≡ leb 3 (positive_count number)
unfolding at_or_above
at_or_above-positive_count none = refl
at_or_above-positive_count (some (negsuc n)) = refl
at_or_above-positive_count (some (pos zero)) = refl
at_or_above-positive_count (some (pos (suc n))) = refl

-- Whether the count that an attribute gives reaches three.
coerce_number-count :
    (py : Builtins) (event : SecurityEvent)
    → at_or_above (coerce_number py (attribute "count" event)) (some (pos 3))
      ≡ leb 3 (failed_login_event_count py event)
unfolding at_or_above failed_login_event_count
coerce_number-count py event =
    at_or_above-positive_count (coerce_number py (attribute "count" event))

-- What is marked counts as many logins as it was marked with.
mark_brute_force-count :
    (event : SecurityEvent) (count : ℕ) (ids : List String)
    → value_of "count" (mark_brute_force event count ids).attributes ≡ num (pos count)
unfolding mark_brute_force
mark_brute_force-count event count [] = rw (value_of-set_field, value_of-set_field)
mark_brute_force-count event count (first ∷ rest) =
    rw (value_of-set_field, value_of-set_field, value_of-set_field)

-- What a failed login counts for with the earlier ones.
unfoldable pub logins : Builtins → SecurityEvent → SiemStore → ℕ
unfolding burst
logins py event s =
    failed_login_event_count py event
    + burst py event (list_events (some 50) (some "auth.failed_login") s)

-- The same event, whose count reaches three exactly if `total` does.
abbrev Counted : Builtins → ℕ → SecurityEvent → SecurityEvent → Type 0
Counted py total event event' =
    (event'.event_type ≡ event.event_type)
    × ((event'.id ≡ event.id)
        × (at_or_above (coerce_number py (attribute "count" event')) (some (pos 3)) ≡ leb 3 total))

mark_brute_force-Counted :
    (py : Builtins) (event : SecurityEvent) (count total : ℕ) (ids : List String)
    → leb 3 count ≡ leb 3 total
    → Counted py total event (mark_brute_force event count ids)
unfolding mark_brute_force coerce_number at_or_above
mark_brute_force-Counted py event count total ids h =
    (refl, (refl, rw (mark_brute_force-count event count ids) h))

enrich-Counted :
    (py : Builtins) (event : SecurityEvent) (s : SiemStore)
    → event.event_type ≡ "auth.failed_login"
    → Counted py (logins py event s) event (enrich_failed_login_burst py event s)
unfolding enrich_failed_login_burst logins
enrich-Counted py event s h =
    let count = failed_login_event_count py event in
    let earlier = list_events (some 50) (some "auth.failed_login") s in
    let is_login : (event.event_type == "auth.failed_login") ≡ true = rw h in
    elim (Bool-cases (leb 3 count)) [
      | inl e ↦
          rw (is_login, e)
            (mark_brute_force-Counted py event count (logins py event s) [] (ground arith))
      | inr e ↦
          let found = failed_logins py event earlier count [] in
          elim (Bool-cases (ltb found.0 3)) [
            | inl k ↦
                let few : leb 3 (logins py event s) ≡ false =
                  ground (arith, failed_logins-burst py event earlier count []) in
                rw (is_login, e, k) (refl, (refl, rw (coerce_number-count py event, e, few)))
            | inr k ↦
                rw (is_login, e, k)
                  (mark_brute_force-Counted py event found.0 (logins py event s) found.1
                    (failed_logins-burst py event earlier count []))
          ]
    ]

-- The other enrichments leave a failed login as it is.
enriched-login :
    (py : Builtins) (fresh : Fresh) (event : SecurityEvent) (s : SiemStore)
    → event.event_type ≡ "auth.failed_login"
    → enriched py fresh event s
      ≡ enrich_failed_login_burst py (record event { id = some (own_id fresh event.id) }) s
unfolding enriched enrich_allowed_port_scan enrich_denied_port_scan enrich_http_flood
enriched-login py fresh event s h =
    let named : SecurityEvent = record event { id = some (own_id fresh event.id) } in
    let same : (enrich_failed_login_burst py named s).event_type ≡ "auth.failed_login" =
      (enrich-Counted py named s h).0 ∙ h in
    rw same

-- An incident of a rule for failed logins is no duplicate of a flood.
raised_by-login :
    (py : Builtins) (fresh : Fresh) (event : SecurityEvent) (id : String)
    (found : Option DetectionRule) (s : SiemStore) (test : Bool)
    → Option.map (λ (rule : DetectionRule). rule.id) found
      ≡ (if test then some "repeated_failed_login" else none)
    → Option.map (λ (incident : Incident). incident.rule_id) (raised_by py fresh event id found s)
      ≡ (if test then some (some "repeated_failed_login") else none)
unfolding has_open_duplicate_incident incident_of
raised_by-login py fresh event id none s true h = cc h
raised_by-login py fresh event id none s false h = refl
raised_by-login py fresh event id (some rule) s true h =
    let same : rule.id ≡ "repeated_failed_login" = cc h in rw same
raised_by-login py fresh event id (some rule) s false h = cc h

-- An event is judged under the id that it has.
detect_incident-some :
    (py : Builtins) (fresh : Fresh) (event : SecurityEvent) (id : String) (s : SiemStore)
    → event.id ≡ some id
    → detect_incident py fresh event s
      ≡ raised_by py fresh event id (find (matches_rule py event) detection_rules) s
unfolding detect_incident
detect_incident-some py fresh event id s h =
    ap
      (λ own. elim own [
        | none ↦ none
        | some id' ↦ raised_by py fresh event id' (find (matches_rule py event) detection_rules) s
      ])
      h

-- Brute force: a failed login raises an incident exactly if it and the failed logins of the same
-- subject in the last five minutes, among the latest fifty, count for three or more; the incident
-- is then of the rule for repeated failed logins.
pub login-detected :
    (py : Builtins) (fresh : Fresh) (event : SecurityEvent) (s s' : SiemStore)
    → event.event_type ≡ "auth.failed_login"
    → Option.map
        (λ (incident : Incident). incident.rule_id)
        (detect_incident py fresh (enriched py fresh event s) s')
      ≡ (if leb 3 (logins py (record event { id = some (own_id fresh event.id) }) s)
          then some (some "repeated_failed_login")
          else none)
login-detected py fresh event s s' h =
    let id = own_id fresh event.id in
    let named : SecurityEvent = record event { id = some id } in
    let marked = enrich_failed_login_burst py named s in
    let counted = enrich-Counted py named s h in
    let found = find-login py marked (counted.0 ∙ h) in
    let test = leb 3 (logins py named s) in
    rw (enriched-login py fresh event s h, detect_incident-some py fresh marked id s' counted.1.0)
      (raised_by-login py fresh marked id (find (matches_rule py marked) detection_rules) s' test
        (rw counted.1.1 at found))
