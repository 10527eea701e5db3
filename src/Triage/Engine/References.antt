-- ===== src/Triage/Engine/References.antt =====
-- apps/api/app/soc/triage/engine.py: what the parts of a context say of each other.
use penguard.Prelude.{String, List, ◌≡◌, refl, true, false, arith, All, inl, inr, Bool-cases}
use penguard.Prelude.Json.{ℤ, pos, negsuc, JsonFields}
use penguard.Prelude.Values.{value_of, eqℤ, leℤ}
use penguard.Triage.Models.{
  Family, network_scan, denied_burst, bruteforce, suspicious_connection, privileged_logon,
  resource_pressure, manual, family_of, EvidenceItem, MitreMapping,
}
use penguard.Triage.Read.{Texts, many_ports, unique_port_count, dict_or_empty, string_or_none}
use penguard.Triage.Evidence.{build_evidence, family_evidence, port_evidence, rule_evidence}
use penguard.Triage.Mitre.{build_mitre_mappings, has_evidence}
use penguard.Triage.Engine.{build_triage_context, or_empty}

-- Every evidence that a mapping names is there.
abbrev pub IsGrounded : List EvidenceItem → MitreMapping → Type 0
IsGrounded evidence mapping = All (λ id. has_evidence id evidence ≡ true) mapping.evidence_ids

at_least_twenty : (n : ℤ) → leℤ (pos 20) n ≡ true → eqℤ n (pos 0) ≡ false
at_least_twenty (pos n) h = ground arith
at_least_twenty (negsuc n) h = refl

-- What a mapping may name: the rule, the ports if there are twenty, the logins of a brute force.
abbrev HasNamed : Texts → Family → JsonFields → List EvidenceItem → Type 0
HasNamed py family attributes evidence =
    (has_evidence "ev_detection_rule" evidence ≡ true)
    × ((family ≡ denied_burst
          → many_ports py attributes ≡ true
          → has_evidence "ev_unique_destination_ports" evidence ≡ true)
        × (family ≡ bruteforce → has_evidence "ev_failed_login_count" evidence ≡ true))

mappings-Grounded :
    (py : Texts) (family : Family) (attributes : JsonFields) (evidence : List EvidenceItem)
    → HasNamed py family attributes evidence
    → All (IsGrounded evidence) (build_mitre_mappings py family evidence attributes)
unfolding build_mitre_mappings
mappings-Grounded py network_scan attributes evidence (rule, (ports, logins)) =
    elim (Bool-cases (has_evidence "ev_unique_destination_ports" evidence)) [
      | inl e ↦ rw e ((e, tt), tt)
      | inr e ↦ rw e ((rule, tt), tt)
    ]
mappings-Grounded py denied_burst attributes evidence (rule, (ports, logins)) =
    elim (Bool-cases (many_ports py attributes)) [
      | inl e ↦ rw e ((ports refl e, tt), tt)
      | inr e ↦ elim (Bool-cases (has_evidence "ev_denied_event_count" evidence)) [
        | inl k ↦ rw (e, k) ((k, tt), tt)
        | inr k ↦ rw (e, k) ((rule, tt), tt)
      ]
    ]
mappings-Grounded py bruteforce attributes evidence (rule, (ports, logins)) =
    ((logins refl, tt), tt)
mappings-Grounded py suspicious_connection attributes evidence (rule, (ports, logins)) =
    ((rule, tt), tt)
mappings-Grounded py privileged_logon attributes evidence (rule, (ports, logins)) = ((rule, tt), tt)
mappings-Grounded py resource_pressure attributes evidence h = tt
mappings-Grounded py manual attributes evidence h = tt

build_evidence-HasNamed :
    (py : Texts) (family : Family) (incident attributes entities : JsonFields)
    → HasNamed py family attributes (build_evidence py family incident attributes entities)
unfolding build_evidence rule_evidence family_evidence port_evidence
build_evidence-HasNamed py family incident attributes entities = (
  refl,
  (
    λ e many.
        let some_ports = at_least_twenty (unique_port_count py attributes) many in
        rw (e, some_ports),
    λ e. rw e,
  ),
)

-- Evidence: every evidence id that a mapping of a context names is that of an item of its evidence.
pub context-Grounded :
    (py : Texts) (generated_at : String) (incident : JsonFields)
    → All
        (IsGrounded (build_triage_context py generated_at incident).evidence)
        (build_triage_context py generated_at incident).mitre_mappings
unfolding build_triage_context
context-Grounded py generated_at incident =
    let attributes = dict_or_empty (value_of "attributes" incident) in
    let entities = dict_or_empty (value_of "entities" incident) in
    let family = family_of (or_empty (string_or_none (value_of "ruleId" incident))) in
    mappings-Grounded py family attributes (build_evidence py family incident attributes entities)
      (build_evidence-HasNamed py family incident attributes entities)
