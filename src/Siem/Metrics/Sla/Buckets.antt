-- ===== src/Siem/Metrics/Sla/Buckets.antt =====
-- apps/siem_kowalski/app/main.py, `_executive_sla`: what its counts and its list say.
use penguard.Prelude.{
  ℕ, suc, ◌+◌, ◌≤◌, List, [], ◌∷◌, ◌≡◌, refl, sym, ap, Bool, true, false, arith, leb, length, All,
  filter, inl, inr, Bool-cases, if◌then◌else◌,
}
use penguard.Prelude.Descending.{Descending, length-sort_by, All-sort_by, sort_by-Descending}
use penguard.Siem.Models.{Incident}
use penguard.Siem.Metrics.Sla.{
  red, amber, Breach, Sla, sla_counts, executive_sla, bucket_of, is_open_for_sla, duration_ms,
}

-- The breaches of a bucket.
abbrev in_red : Breach → Bool
in_red b = elim b.bucket [ red ↦ true | amber ↦ false ]

-- An incident that stands in the list for this reason: it is open and at least as old.
abbrev pub is_late : ℕ → ℕ → Incident → Bool
is_late now age incident =
    if is_open_for_sla incident then leb age (duration_ms incident.created_at now) else false

-- Each breach is at least fifteen minutes old, and red exactly from an hour on.
abbrev IsRight : Breach → Type 0
IsRight b = (900000 ≤ b.age_ms) × (in_red b ≡ leb 3600000 b.age_ms)

abbrev pub Counts : ℕ → List Incident → Sla → Type 0
Counts now incidents sla =
    (sla.open_count ≡ length (filter is_open_for_sla incidents))
    × ((sla.red_count ≡ length (filter (is_late now 3600000) incidents))
        × ((sla.red_count + sla.amber_count ≡ length (filter (is_late now 900000) incidents))
            × ((length sla.breaches ≡ sla.red_count + sla.amber_count) × All IsRight sla.breaches)))

sla_counts-Counts :
    (now : ℕ) (incidents : List Incident) → Counts now incidents (sla_counts now incidents)
unfolding sla_counts bucket_of
sla_counts-Counts now [] = (refl, (refl, (refl, (refl, tt))))
sla_counts-Counts now (incident ∷ incidents) =
    let age = duration_ms incident.created_at now in
    let (opened, (reds, (both, (listed, right)))) = sla_counts-Counts now incidents in
    elim (Bool-cases (is_open_for_sla incident)) [
      | inr e ↦ rw e (opened, (reds, (both, (listed, right))))
      | inl e ↦ elim (Bool-cases (leb 3600000 age)) [
        | inl k ↦
            let middle : leb 900000 age ≡ true = ground arith in
            rw (e, k, middle)
              (
                ap suc opened,
                (
                  ap suc reds,
                  (omega (arith, both), (omega (arith, listed), ((ground arith, sym k), right))),
                ),
              )
        | inr k ↦ elim (Bool-cases (leb 900000 age)) [
          | inl l ↦
              rw (e, k, l)
                (
                  ap suc opened,
                  (
                    reds,
                    (omega (arith, both), (omega (arith, listed), ((ground arith, sym k), right))),
                  ),
                )
          | inr l ↦ rw (e, k, l) (ap suc opened, (reds, (both, (listed, right))))
        ]
      ]
    ]

abbrev pub age_of : Breach → ℕ
age_of b = b.age_ms

-- The counts and the list of open incidents by age: `open_count` counts the open incidents,
-- `red_count` those of at least an hour, and both counts together those of at least fifteen minutes;
-- the list has as many breaches as the two counts say, each at least fifteen minutes old and red
-- exactly from an hour on, and the oldest come first.
pub executive_sla-Counts :
    (now : ℕ) (incidents : List Incident)
    → Counts now incidents (executive_sla now incidents)
      × Descending age_of (executive_sla now incidents).breaches
unfolding executive_sla
executive_sla-Counts now incidents =
    let (opened, (reds, (both, (listed, right)))) = sla_counts-Counts now incidents in
    let breaches = (sla_counts now incidents).breaches in
    (
      (
        opened,
        (
          reds,
          (
            both,
            (rw (length-sort_by age_of breaches) listed, All-sort_by age_of IsRight breaches right),
          ),
        ),
      ),
      sort_by-Descending age_of breaches,
    )
