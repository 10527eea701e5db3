-- ===== src/Siem/Metrics/Times.antt =====
-- apps/siem_kowalski/app/main.py, `_executive_response_times`: how long detection and response took.
-- The quotients are rounded to the nearest integer, a half to the even one, as Python's `round` does;
-- the source divides in floating point, which is exact below 2 ^ 53.
pub mod Bounds
use penguard.Prelude.{
  ℕ, zero, suc, ◌+◌, ◌-◌, ◌*◌, String, List, [], ◌∷◌, Bool, true, false, not, ◌&&◌, Option, none,
  some, leb, ltb, eqb, filter, sort_by, sorted_by, length, if◌then◌else◌,
}
use Prim.Native.Nat.{◌/◌, ◌%◌}
use penguard.Siem.Models.{SecurityEvent, Incident, IncidentStatus, TimelineItem, is_terminal}
use penguard.Siem.Metrics.{created_later}
use penguard.Siem.Metrics.Scope.{related_events}
use penguard.Siem.Metrics.Sla.{duration_ms}

-- round(a / b)
unfoldable pub round_div : ℕ → ℕ → ℕ
round_div a b =
    let q = a / b in
    let r = a % b in
    if ltb (r + r) b then q else if ltb b (r + r) then suc q else if eqb (q % 2) 0 then q else suc q

unfoldable pub sum : List ℕ → ℕ
sum [] = 0
sum (x ∷ xs) = x + sum xs

unfoldable pub average_ms : List ℕ → Option ℕ
unfolding sum round_div
average_ms [] = none
average_ms (x ∷ xs) = some (round_div (sum (x ∷ xs)) (length (x ∷ xs)))

-- values[index]
abbrev pub value_at : ℕ → List ℕ → ℕ
value_at index [] = 0
value_at zero (x ∷ xs) = x
value_at (suc index) (x ∷ xs) = value_at index xs

unfoldable pub middle : List ℕ → ℕ
unfolding round_div
middle sorted_values =
    let mid = length sorted_values / 2 in
    if eqb (length sorted_values % 2) 1
    then value_at mid sorted_values
    else round_div (value_at (mid - 1) sorted_values + value_at mid sorted_values) 2

unfoldable pub median_ms : List ℕ → Option ℕ
unfolding middle
median_ms [] = none
median_ms (x ∷ xs) = some (middle (sorted_by (λ n. n) (x ∷ xs)))

-- min(times)
abbrev pub least : ℕ → List ℕ → ℕ
least best [] = best
least best (x ∷ xs) = least (if leb best x then best else x) xs

abbrev pub earliest : List ℕ → Option ℕ
earliest [] = none
earliest (x ∷ xs) = some (least x xs)

abbrev occurred : List SecurityEvent → List ℕ
occurred [] = []
occurred (event ∷ events) = event.occurred_at ∷ occurred events

unfoldable pub incident_mttd_ms : List SecurityEvent → Incident → Option ℕ
incident_mttd_ms events incident = elim (earliest (occurred (related_events incident events))) [
  | none ↦ none
  | some first ↦ some (duration_ms first incident.created_at)
]

abbrev is_terminal_item : TimelineItem → Bool
is_terminal_item item = elim item.status [ none ↦ false | some status ↦ is_terminal status ]

abbrev item_times : List TimelineItem → List ℕ
item_times [] = []
item_times (item ∷ items) = item.occurred_at ∷ item_times items

unfoldable pub incident_mttr_ms : Incident → Option ℕ
incident_mttr_ms incident =
    if is_terminal incident.status
    then elim (earliest (item_times (filter is_terminal_item incident.timeline))) [
      | none ↦ none
      | some first ↦ some (duration_ms incident.created_at first)
    ]
    else none

pub record ResponseRow : Type 0 where
  pub id : String
  pub title : String
  pub severity : String
  pub age_ms : ℕ
  pub mttd_ms : Option ℕ
  pub mttr_ms : Option ℕ

unfoldable pub response_rows : ℕ → List SecurityEvent → List Incident → List ResponseRow
response_rows now events [] = []
response_rows now events (incident ∷ incidents) =
    record {
      id = incident.id;
      title = incident.title;
      severity = incident.severity;
      age_ms = duration_ms incident.created_at now;
      mttd_ms = incident_mttd_ms events incident;
      mttr_ms = incident_mttr_ms incident;
    }
    ∷ response_rows now events incidents

-- The values that are not None.
abbrev pub given : List (Option ℕ) → List ℕ
given [] = []
given (none ∷ values) = given values
given (some value ∷ values) = value ∷ given values

abbrev mttds : List ResponseRow → List (Option ℕ)
mttds [] = []
mttds (row ∷ rows) = row.mttd_ms ∷ mttds rows

abbrev mttrs : List ResponseRow → List (Option ℕ)
mttrs [] = []
mttrs (row ∷ rows) = row.mttr_ms ∷ mttrs rows

pub record ResponseTimes : Type 0 where
  pub mttd_avg_ms : Option ℕ
  pub mttr_avg_ms : Option ℕ
  pub mttd_median_ms : Option ℕ
  pub mttr_median_ms : Option ℕ
  pub mttd_sample_size : ℕ
  pub mttr_sample_size : ℕ
  pub per_incident : List ResponseRow

unfoldable pub response_times : ℕ → List SecurityEvent → List Incident → ResponseTimes
response_times now events incidents =
    let rows = response_rows now events (sort_by created_later incidents) in
    let mttd = given (mttds rows) in
    let mttr = given (mttrs rows) in
    record {
      mttd_avg_ms = average_ms mttd;
      mttr_avg_ms = average_ms mttr;
      mttd_median_ms = median_ms mttd;
      mttr_median_ms = median_ms mttr;
      mttd_sample_size = length mttd;
      mttr_sample_size = length mttr;
      per_incident = rows;
    }
