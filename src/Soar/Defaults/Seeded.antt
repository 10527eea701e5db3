-- ===== src/Soar/Defaults/Seeded.antt =====
-- apps/soar_skipper/app/main.py, `_seed_default_playbooks`: what it leaves in the store.
use penguard.Prelude.{
  String, List, [], ◌∷◌, ◌≡◌, refl, ap, subst, true, Option, none, some, ◌==◌, eq_iff, eq_refl,
  arith, ◌∙◌, if◌then◌else◌, inl, inr, Option-cases, Bool-cases, String-cases,
}
use penguard.Prelude.Tables.{select}
use penguard.Http.{ok}
use penguard.Soar.Models.{Playbook, fields_in_bounds, validate_graph, validate_playbook_for_save}
use penguard.Soar.Store.{SoarStore, get_playbook, get_run, update_playbook}
use penguard.Soar.Store.Views.{
  get_playbook-update_playbook, get_playbook-save_playbook, get_run-save_playbook,
  get_run-update_playbook, save_playbook-fresh,
}
use penguard.Soar.Service.{model_validate}
use penguard.Soar.Service.Outcomes.{IsValid, with_system-IsValid}
use penguard.Soar.Service.Invariant.{IsSound, put_playbook-IsSound}
use penguard.Soar.Defaults.{default_playbooks, mark_system, seed_playbook, seed_playbooks}

-- What seeding `p` leaves under its id, from what was there: `p` itself, or the old playbook marked
-- as a system one.
abbrev pub seeded : Playbook → Option Playbook → Playbook
seeded p none = p
seeded p (some q) = mark_system q

module _ (p : Playbook) (s : SoarStore) (sound : IsSound s) where
  record Seeds (after : SoarStore) : Type 0 where
    result : seed_playbook p s ≡ (ok tt, after)
    seen :
        (j : String)
        → get_playbook j after
          ≡ (if p.id == j then some (seeded p (get_playbook p.id s)) else get_playbook j s)
    runs : (j : String) → get_run j after ≡ get_run j s

  seed_found : (q : Playbook) → get_playbook p.id s ≡ some q → (after : SoarStore) × Seeds after
  unfolding seed_playbook model_validate
  seed_found q found =
      let (_, valid) = sound.playbooks p.id q found in
      elim (Bool-cases q.system) [
        | inl sys ↦ (
          s,
          record {
            result = rw (found, valid.bounds, valid.graph, sys);
            seen = λ j. ground (arith, found, sys, eq_iff p.id j);
            runs = λ j. refl;
          },
        )
        | inr own ↦ (
          update_playbook p.id (mark_system q) s,
          record {
            result = rw (found, valid.bounds, valid.graph, own);
            seen = λ j. ground (
              arith,
              found,
              get_playbook-update_playbook j p.id (mark_system q) s,
              eq_iff p.id j,
            );
            runs = λ j. get_run-update_playbook j s p.id (mark_system q);
          },
        )
      ]

  seed_playbook-Seeds : (after : SoarStore) × Seeds after
  unfolding seed_playbook
  seed_playbook-Seeds = elim (Option-cases (get_playbook p.id s)) [
    | inl gone ↦
        let (after, saved) = save_playbook-fresh p.id p s gone in
        (
          after,
          record {
            result = rw (gone, saved);
            seen = λ j. ground (arith, gone, get_playbook-save_playbook j p.id p s saved);
            runs = λ j. get_run-save_playbook j p.id p s saved;
          },
        )
    | inr (q, found) ↦ seed_found q found
  ]

  seeded-facts :
      IsValid p
      → (seeded p (get_playbook p.id s)).id ≡ p.id × IsValid (seeded p (get_playbook p.id s))
  seeded-facts valid = elim (Option-cases (get_playbook p.id s)) [
    | inl gone ↦ rw gone (refl, valid)
    | inr (q, found) ↦
        let (own, sound_q) = sound.playbooks p.id q found in
        rw found (own, with_system-IsValid q true sound_q)
  ]

  -- Seeding keeps a store sound.
  seed_playbook-IsSound : IsValid p → (after : SoarStore) → Seeds after → IsSound after
  seed_playbook-IsSound valid after seeds =
      let (own, good) = seeded-facts valid in
      put_playbook-IsSound s sound after p.id (seeded p (get_playbook p.id s)) own good
        (λ j q h. ground (arith, h, seeds.seen j, eq_iff p.id j)) seeds.runs

-- What seeding the list leaves under the id `j`, from what was there.
abbrev pub seeded_in : List Playbook → String → Option Playbook → Option Playbook
seeded_in ps j found = elim (select Playbook.id j ps) [
  | none ↦ found
  | some p ↦ some (seeded p found)
]

-- The playbooks are valid and system ones, and no two have one id.
abbrev AreBuiltIn : List Playbook → Type 0
AreBuiltIn [] = Unit
AreBuiltIn (p ∷ ps) =
    IsValid p × (p.system ≡ true) × (select Playbook.id p.id ps ≡ none) × AreBuiltIn ps

record Seeded (ps : List Playbook) (s after : SoarStore) : Type 0 where
  result : seed_playbooks ps s ≡ (ok tt, after)
  seen : (j : String) → get_playbook j after ≡ seeded_in ps j (get_playbook j s)
  runs : (j : String) → get_run j after ≡ get_run j s
  sound : IsSound after

seen_cons :
    (p : Playbook) (ps : List Playbook) (j : String) (s mid after : SoarStore)
    → select Playbook.id p.id ps ≡ none
    → get_playbook j mid
      ≡ (if p.id == j then some (seeded p (get_playbook p.id s)) else get_playbook j s)
    → get_playbook j after ≡ seeded_in ps j (get_playbook j mid)
    → get_playbook j after ≡ seeded_in (p ∷ ps) j (get_playbook j s)
unfolding select
seen_cons p ps j s mid after once here later = elim (String-cases p.id j) [
  | inl same ↦
      let found : (p.id == j) ≡ true = (eq_iff p.id j).1 same in
      let gone : select Playbook.id j ps ≡ none =
        subst (λ k. select Playbook.id k ps ≡ none) same once in
      let old : get_playbook p.id s ≡ get_playbook j s = ap (λ k. get_playbook k s) same in
      rw (found, seeded_in) (rw (gone, seeded_in, rw found at here, old) at later)
  | inr other ↦ rw (other, seeded_in) (rw (rw other at here) at later)
]

seed_playbooks-Seeded :
    (ps : List Playbook) (s : SoarStore)
    → IsSound s
    → AreBuiltIn ps
    → (after : SoarStore) × Seeded ps s after
unfolding seed_playbooks select
seed_playbooks-Seeded [] s sound built =
    (s, record { result = refl; seen = λ j. refl; runs = λ j. refl; sound = sound })
seed_playbooks-Seeded (p ∷ ps) s sound (valid, _, once, built) =
    let (mid, seeds) = seed_playbook-Seeds p s sound in
    let (after, rest) =
      seed_playbooks-Seeded ps mid (seed_playbook-IsSound p s sound valid mid seeds) built in
    (
      after,
      record {
        result = rw (seeds.result) rest.result;
        seen = λ j. seen_cons p ps j s mid after once (seeds.seen j) (rest.seen j);
        runs = λ j. rest.runs j ∙ seeds.runs j;
        sound = rest.sound;
      },
    )

default_playbooks-AreBuiltIn : AreBuiltIn default_playbooks
unfolding fields_in_bounds validate_graph validate_playbook_for_save select
default_playbooks-AreBuiltIn = (
  record { bounds = refl; graph = refl; saves = refl },
  refl,
  refl,
  (
    record { bounds = refl; graph = refl; saves = refl },
    refl,
    refl,
    (record { bounds = refl; graph = refl; saves = refl }, refl, refl, tt),
  ),
)

-- A playbook of the list under its id is a system one.
select-system :
    (ps : List Playbook) (id : String) (p : Playbook)
    → AreBuiltIn ps
    → select Playbook.id id ps ≡ some p
    → p.system ≡ true
unfolding select
select-system [] id p built h = absurd (cc h)
select-system (q ∷ ps) id p (_, sys, _, built) h = elim (String-cases q.id id) [
  | inl same ↦ ground (arith, h, sys, same, eq_refl id)
  | inr other ↦ select-system ps id p built (rw other at h)
]

pub built_in-system :
    (id : String) (p : Playbook)
    → select Playbook.id id default_playbooks ≡ some p
    → p.system ≡ true
built_in-system id p = select-system default_playbooks id p default_playbooks-AreBuiltIn

-- The start of the service on a sound store succeeds and leaves it sound. Under the id of a built-in
-- playbook then stands the built-in exactly as it is declared, if there was no playbook of that id,
-- and otherwise the playbook that was there, with the system flag set and nothing else changed. Under
-- every other id, and of the runs, all is as before.
pub seed_default_playbooks :
    (s : SoarStore) (j : String)
    → IsSound s
    → ((seed_playbooks default_playbooks s).0 ≡ ok tt)
      × IsSound (seed_playbooks default_playbooks s).1
      × (get_playbook j (seed_playbooks default_playbooks s).1
          ≡ seeded_in default_playbooks j (get_playbook j s))
      × (get_run j (seed_playbooks default_playbooks s).1 ≡ get_run j s)
seed_default_playbooks s j sound =
    let (after, done) =
      seed_playbooks-Seeded default_playbooks s sound default_playbooks-AreBuiltIn in
    rw done.result (refl, done.sound, done.seen j, done.runs j)
