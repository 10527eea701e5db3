-- ===== src/Triage/Engine/Approval.antt =====
-- apps/api/app/soc/triage/engine.py: the approval of responses, and the responses that a template
-- needs.
use penguard.Prelude.{
  String, List, [], ◌∷◌, ◌≡◌, refl, Bool, true, false, not, ◌&&◌, ◌||◌, ◌==◌, arith, any, All,
  contains, inl, inr, Bool-cases,
}
use penguard.Prelude.Json.{JsonFields}
use penguard.Triage.Models.{
  Family, network_scan, denied_burst, bruteforce, suspicious_connection, privileged_logon,
  resource_pressure, manual, family_of, ResponseCandidate, PlaybookTemplateRecommendation,
  RiskLevel,
}
use penguard.Triage.Read.{Texts, is_set, dict_or_empty, string_or_none}
use penguard.Prelude.Values.{value_of}
use penguard.Triage.Candidates.{
  Names, names_of, build_response_candidates, family_candidates, watchlist, watched,
  scan_candidates, login_candidates, identity_candidates, case_note, escalation, block_id,
}
use penguard.Triage.Templates.{build_playbook_templates, scan_templates, required, is_available}
use penguard.Triage.Engine.{build_triage_context, or_empty}

abbrev is_high : RiskLevel → Bool
is_high RiskLevel.high = true
is_high RiskLevel.medium = false
is_high RiskLevel.low = false

abbrev candidates_of : Family → Names → List ResponseCandidate
candidates_of family names = (build_response_candidates family names).0

-- A predicate of the candidates holds of all if it holds of the three that any family may have and
-- of the family's own.
candidates-All :
    (P : ResponseCandidate → Type 0) (family : Family) (names : Names)
    → P case_note
    → P escalation
    → P (watched names)
    → All P (family_candidates family names)
    → All P (candidates_of family names)
unfolding build_response_candidates watchlist
candidates-All P family names note escalate watch rest =
    elim (Bool-cases
      (is_set names.source_ip || is_set names.destination_ip || is_set names.username)) [
        | inl e ↦ rw e (note, (escalate, (watch, rest)))
        | inr e ↦ rw e (note, (escalate, rest))
      ]

-- Whoever is risky needs an approval, and is available only for a source and an integration.
abbrev pub IsGuarded : Names → ResponseCandidate → Type 0
IsGuarded names candidate =
    ((is_high candidate.risk_level && not candidate.requires_approval) ≡ false)
    × ((is_high candidate.risk_level
          && candidate.available_now
          && not (is_set names.integration_id && is_set names.source_ip))
        ≡ false)

family-Guarded :
    (family : Family) (names : Names) → All (IsGuarded names) (family_candidates family names)
unfolding family_candidates scan_candidates login_candidates identity_candidates
family-Guarded network_scan names =
    ((refl, ground arith), ((refl, ground arith), ((refl, refl), tt)))
family-Guarded denied_burst names =
    ((refl, ground arith), ((refl, ground arith), ((refl, refl), tt)))
family-Guarded bruteforce names =
    ((refl, ground arith), ((refl, refl), ((refl, refl), ((refl, refl), ((refl, refl), tt)))))
family-Guarded suspicious_connection names = tt
family-Guarded privileged_logon names = tt
family-Guarded resource_pressure names = tt
family-Guarded manual names = tt

-- A candidate that a template needs, and whose approval the template does not ask for.
abbrev slips : List String → Bool → ResponseCandidate → Bool
slips ids approval candidate =
    contains candidate.id ids && (candidate.requires_approval && not approval)

abbrev Covers : List String → Bool → List ResponseCandidate → Type 0
Covers ids approval candidates = All (λ candidate. slips ids approval candidate ≡ false) candidates

note-family :
    (approval : Bool) (family : Family) (names : Names)
    → All
        (λ candidate. slips ("case.add_note" ∷ []) approval candidate ≡ false)
        (family_candidates family names)
unfolding family_candidates scan_candidates login_candidates identity_candidates
note-family approval network_scan names = (refl, (refl, (refl, tt)))
note-family approval denied_burst names = (refl, (refl, (refl, tt)))
note-family approval bruteforce names = (refl, (refl, (refl, (refl, (refl, tt)))))
note-family approval suspicious_connection names = tt
note-family approval privileged_logon names = tt
note-family approval resource_pressure names = tt
note-family approval manual names = tt

note-Covers :
    (approval : Bool) (family : Family) (names : Names)
    → Covers ("case.add_note" ∷ []) approval (candidates_of family names)
note-Covers approval family names =
    candidates-All (λ c. slips ("case.add_note" ∷ []) approval c ≡ false) family names refl refl
      refl (note-family approval family names)

review-Covers :
    (names : Names) → Covers ("identity.review_account" ∷ []) false (candidates_of bruteforce names)
unfolding family_candidates login_candidates identity_candidates
review-Covers names =
    candidates-All (λ c. slips ("identity.review_account" ∷ []) false c ≡ false) bruteforce names
      refl refl refl (refl, (refl, (refl, (refl, (refl, tt)))))

approved-Covers :
    (ids : List String) (candidates : List ResponseCandidate) → Covers ids true candidates
approved-Covers ids [] = tt
approved-Covers ids (c ∷ cs) = (ground arith, approved-Covers ids cs)

abbrev has_candidate : String → List ResponseCandidate → Bool
has_candidate id = any (λ (candidate : ResponseCandidate). candidate.id == id)

-- What a template needs is among the candidates, where one of these needs an approval, so does the
-- template, and the block from source to target is needed only where it is available.
abbrev pub IsCovered : List ResponseCandidate → PlaybookTemplateRecommendation → Type 0
IsCovered candidates template =
    All (λ id. has_candidate id candidates ≡ true) template.required_candidate_ids
    × (Covers template.required_candidate_ids template.requires_approval candidates
        × ((contains block_id template.required_candidate_ids
              && not (is_available block_id candidates))
            ≡ false))

available-candidate :
    (id : String) (candidates : List ResponseCandidate)
    → is_available id candidates ≡ true
    → has_candidate id candidates ≡ true
available-candidate id [] h = cc h
available-candidate id (c ∷ cs) h = ground (arith, available-candidate id cs)

note-candidate :
    (family : Family) (names : Names)
    → has_candidate "case.add_note" (candidates_of family names) ≡ true
unfolding build_response_candidates
note-candidate family names = refl

review-candidate :
    (names : Names)
    → has_candidate "identity.review_account" (candidates_of bruteforce names) ≡ true
unfolding build_response_candidates watchlist family_candidates login_candidates identity_candidates
review-candidate names =
    elim (Bool-cases
      (is_set names.source_ip || is_set names.destination_ip || is_set names.username)) [
        | inl e ↦ rw e
        | inr e ↦ rw e
      ]

scan-Covered :
    (py : Texts) (family : Family) (names : Names) (attributes : JsonFields)
    → All
        (IsCovered (candidates_of family names))
        (scan_templates py family (candidates_of family names) names attributes)
unfolding scan_templates required
scan-Covered py family names attributes =
    let candidates = candidates_of family names in
    elim (Bool-cases (is_available block_id candidates)) [
      | inl e ↦
          let found = available-candidate block_id candidates e in
          let covered = approved-Covers (block_id ∷ []) candidates in
          rw e (((found, tt), (covered, refl)), (((found, tt), (covered, refl)), tt))
      | inr e ↦
          let found = note-candidate family names in
          rw e (
            ((found, tt), (note-Covers false family names, refl)),
            (((found, tt), (note-Covers true family names, refl)), tt),
          )
    ]

templates-Covered :
    (py : Texts) (family : Family) (names : Names) (attributes : JsonFields)
    → All
        (IsCovered (candidates_of family names))
        (build_playbook_templates py family (candidates_of family names) names attributes)
unfolding build_playbook_templates
templates-Covered py network_scan names attributes = scan-Covered py network_scan names attributes
templates-Covered py denied_burst names attributes = scan-Covered py denied_burst names attributes
templates-Covered py bruteforce names attributes =
    (((review-candidate names, tt), (review-Covers names, refl)), tt)
templates-Covered py suspicious_connection names attributes = (
  (
    (note-candidate suspicious_connection names, tt),
    (note-Covers false suspicious_connection names, refl),
  ),
  tt,
)
templates-Covered py resource_pressure names attributes = (
  ((note-candidate resource_pressure names, tt), (note-Covers false resource_pressure names, refl)),
  tt,
)
templates-Covered py privileged_logon names attributes = tt
templates-Covered py manual names attributes = tt

-- Risky responses: of any family, every candidate of high risk requires an approval, and one that is
-- available has an integration and a source address.
pub response_candidates-Guarded :
    (family : Family) (names : Names)
    → All (IsGuarded names) (build_response_candidates family names).0
response_candidates-Guarded family names =
    candidates-All (IsGuarded names) family names (refl, refl) (refl, refl) (refl, refl)
      (family-Guarded family names)

-- Recommended playbooks: every candidate that a template of a context needs is among the context's
-- candidates, a template that needs one whose use requires an approval requires it too, and none
-- needs the block from source to target unless this is available.
pub context-Covered :
    (py : Texts) (generated_at : String) (incident : JsonFields)
    → All
        (IsCovered (build_triage_context py generated_at incident).response_candidates)
        (build_triage_context py generated_at incident).playbook_templates
unfolding build_triage_context
context-Covered py generated_at incident =
    let attributes = dict_or_empty (value_of "attributes" incident) in
    let entities = dict_or_empty (value_of "entities" incident) in
    templates-Covered py (family_of (or_empty (string_or_none (value_of "ruleId" incident))))
      (names_of py attributes entities) attributes
