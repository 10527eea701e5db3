-- ===== src/Siem/Metrics.antt =====
-- apps/siem_kowalski/app/main.py, `_executive_metrics`: the incidents of a window and a scope, and
-- what is counted and measured of them.
pub mod Scope
pub mod Sla
pub mod Times
pub mod Executive
use mathlib.Core.Option
use penguard.Prelude.{
  ℕ, suc, ◌+◌, ◌*◌, String, List, [], ◌∷◌, ◌++◌, Bool, true, false, not, ◌&&◌, Option, none, some,
  ◌==◌, map, filter, take, length, leb, ltb, sort_by, if◌then◌else◌,
}
use penguard.Prelude.Json.{Json, JsonFields, end, field, str}
use penguard.Prelude.Texts.{lower}
use penguard.Prelude.Values.{Builtins, text_of}
use penguard.Siem.Models.{Incident}

abbrev pub default_window_seconds : ℕ
default_window_seconds = 24 * 60 * 60

unfoldable pub window_seconds : String → ℕ
window_seconds window =
    if window == "15m"
    then 15 * 60
    else if window == "1h"
    then 60 * 60
    else if window == "6h"
    then 6 * 60 * 60
    else if window == "7d"
    then 7 * default_window_seconds
    else default_window_seconds

-- created_at >= now - window
unfoldable pub in_window : String → ℕ → Incident → Bool
in_window window now incident = leb now (incident.created_at + window_seconds window * 1000)

-- counts[key] = counts.get(key, 0) + 1, for a test of keys
abbrev pub bump {ℓ} : {K : Type ℓ} → (K → K → Bool) → K → List (K × ℕ) → List (K × ℕ)
bump same key [] = (key, 1) ∷ []
bump same key ((k, n) ∷ counts) =
    let later = bump same key counts in if same k key then (k, suc n) ∷ counts else (k, n) ∷ later

abbrev pub severity_name : Incident → String
severity_name incident =
    if incident.severity == "" then "informational" else lower incident.severity

-- The loop over the incidents.
unfoldable pub severity_counts : List Incident → List (String × ℕ) → List (String × ℕ)
severity_counts [] counts = counts
severity_counts (incident ∷ incidents) counts =
    severity_counts incidents (bump ◌==◌ (severity_name incident) counts)

abbrev pub no_severities : List (String × ℕ)
no_severities =
    ("critical", 0) ∷ ("high", 0) ∷ ("medium", 0) ∷ ("low", 0) ∷ ("informational", 0) ∷ []

abbrev pub is_counted {ℓ} : {K : Type ℓ} → K × ℕ → Bool
is_counted (key, n) = ltb 0 n

-- The items and the total.
unfoldable pub executive_severity : List Incident → List (String × ℕ) × ℕ
unfolding severity_counts
executive_severity incidents =
    (filter is_counted (severity_counts incidents no_severities), length incidents)

abbrev pub created_later : Incident → Incident → Bool
created_later a b = leb b.created_at a.created_at

unfoldable pub recent_incidents : ℕ → List Incident → List Incident × ℕ
recent_incidents limit incidents = (take limit (sort_by created_later incidents), length incidents)

abbrev same_entity : String × String → String × String → Bool
same_entity (name, value) (name', value') = name == name' && value == value'

-- value in (None, "")
abbrev is_blank : Json → Bool
is_blank Json.null = true
is_blank (str text) = text == ""
is_blank _ = false

unfoldable pub count_entities :
    Builtins → JsonFields → List ((String × String) × ℕ) → List ((String × String) × ℕ)
count_entities py end counts = counts
count_entities py (field name value rest) counts =
    count_entities py rest
      (if is_blank value then counts else bump same_entity (name, text_of py value) counts)

unfoldable pub entity_counts :
    Builtins → List Incident → List ((String × String) × ℕ) → List ((String × String) × ℕ)
entity_counts py [] counts = counts
entity_counts py (incident ∷ incidents) counts =
    entity_counts py incidents (count_entities py incident.entities counts)

abbrev counted_more : (String × String) × ℕ → (String × String) × ℕ → Bool
counted_more (_, m) (_, n) = leb n m

unfoldable pub top_entities : Builtins → ℕ → List Incident → List ((String × String) × ℕ)
top_entities py limit incidents = take limit (sort_by counted_more (entity_counts py incidents []))
