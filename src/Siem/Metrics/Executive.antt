-- ===== src/Siem/Metrics/Executive.antt =====
-- apps/siem_kowalski/app/main.py, `_executive_metrics`: the metrics of one window and scope, from the
-- same list of incidents.
use penguard.Prelude.{
  ℕ, suc, ◌+◌, ◌≤◌, String, List, [], ◌∷◌, ◌≡◌, refl, Bool, Option, none, ◌==◌, arith, filter,
  length, ltb, inl, inr, Bool-cases,
}
use penguard.Prelude.Values.{Builtins}
use penguard.Siem.Models.{Incident}
use penguard.Siem.Store.{SiemStore, list_incidents}
use penguard.Siem.Metrics.{
  in_window, executive_severity, severity_counts, severity_name, no_severities, bump, is_counted,
  recent_incidents, top_entities,
}
use penguard.Siem.Metrics.Scope.{ProviderType, executive_events, filter_incidents_for_scope}
use penguard.Siem.Metrics.Sla.{Sla, executive_sla, is_open_for_sla}
use penguard.Siem.Metrics.Sla.Buckets.{is_late, executive_sla-Counts}
use penguard.Siem.Metrics.Times.{ResponseTimes, response_times}

pub record Metrics : Type 0 where
  pub severity : List (String × ℕ) × ℕ
  pub recent : List Incident × ℕ
  pub entities : List ((String × String) × ℕ)
  pub sla : Sla
  pub times : ResponseTimes

-- The incidents that every metric is of.
unfoldable pub scoped_incidents :
    Builtins → String → ℕ → Option String → Option ProviderType → SiemStore → List Incident
scoped_incidents py window now integration_id provider store =
    let windowed = filter (in_window window now) (list_incidents none none store) in
    filter_incidents_for_scope py integration_id provider (executive_events windowed store) windowed

unfoldable pub executive_metrics :
    Builtins → String → ℕ → ℕ → Option String → Option ProviderType → SiemStore → Metrics
executive_metrics py window limit now integration_id provider store =
    let windowed = filter (in_window window now) (list_incidents none none store) in
    let scoped = scoped_incidents py window now integration_id provider store in
    record {
      severity = executive_severity scoped;
      recent = recent_incidents limit scoped;
      entities = top_entities py 10 scoped;
      sla = executive_sla now scoped;
      times = response_times now (executive_events windowed store) scoped;
    }

-- The sum of the counts.
abbrev pub total : List (String × ℕ) → ℕ
total [] = 0
total ((key, n) ∷ counts) = n + total counts

total-bump :
    (key : String) (counts : List (String × ℕ)) → total (bump ◌==◌ key counts) ≡ suc (total counts)
total-bump key [] = omega arith
total-bump key ((k, n) ∷ counts) = elim (Bool-cases (k == key)) [
  | inl e ↦ rw e (omega arith)
  | inr e ↦ rw e (omega (arith, total-bump key counts))
]

total-severity_counts :
    (incidents : List Incident) (counts : List (String × ℕ))
    → total (severity_counts incidents counts) ≡ length incidents + total counts
unfolding severity_counts
total-severity_counts [] counts = omega arith
total-severity_counts (incident ∷ incidents) counts =
    let name = severity_name incident in
    omega (arith, total-severity_counts incidents (bump ◌==◌ name counts), total-bump name counts)

-- What is left out counts nothing.
total-filter : (counts : List (String × ℕ)) → total (filter is_counted counts) ≡ total counts
total-filter [] = refl
total-filter ((key, n) ∷ counts) = elim (Bool-cases (ltb 0 n)) [
  | inl e ↦ rw e (omega (arith, total-filter counts))
  | inr e ↦ rw e (ground (arith, total-filter counts))
]

length-filter : (p : Incident → Bool) (xs : List Incident) → length (filter p xs) ≤ length xs
length-filter p [] = omega arith
length-filter p (x ∷ xs) = ground (arith, length-filter p xs)

-- Whoever is late is open.
late-open :
    (now age : ℕ) (xs : List Incident)
    → length (filter (is_late now age) xs) ≤ length (filter is_open_for_sla xs)
late-open now age [] = omega arith
late-open now age (x ∷ xs) = elim (Bool-cases (is_open_for_sla x)) [
  | inl e ↦ rw e (ground (arith, late-open now age xs))
  | inr e ↦ rw e (late-open now age xs)
]

abbrev pub Agree : Metrics → Type 0
Agree m =
    (total m.severity.0 ≡ m.severity.1)
    × ((m.severity.1 ≡ m.recent.1)
        × ((m.sla.open_count ≤ m.severity.1) × (length m.sla.breaches ≤ m.sla.open_count)))

-- The metrics agree with each other: the counts of the severities add up to their total, which is
-- the count beside the recent incidents; no more incidents are open than that, and no more breach
-- the agreed times than are open.
pub executive_metrics-Agree :
    (py : Builtins) (window : String) (limit now : ℕ) (integration_id : Option String)
    (provider : Option ProviderType) (store : SiemStore)
    → Agree (executive_metrics py window limit now integration_id provider store)
unfolding executive_metrics executive_severity recent_incidents
executive_metrics-Agree py window limit now integration_id provider store =
    let scoped = scoped_incidents py window now integration_id provider store in
    let ((opened, (reds, (both, (listed, right)))), sorted) = executive_sla-Counts now scoped in
    (
      omega (
        arith,
        total-filter (severity_counts scoped no_severities),
        total-severity_counts scoped no_severities,
      ),
      (
        refl,
        (
          omega (arith, opened, length-filter is_open_for_sla scoped),
          omega (arith, opened, both, listed, late-open now 900000 scoped),
        ),
      ),
    )
