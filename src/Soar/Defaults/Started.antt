-- ===== src/Soar/Defaults/Started.antt =====
-- apps/soar_skipper/app/main.py: what `_get_playbook_or_404` gives of a service that has started on an
-- empty store.
use penguard.Prelude.{String, List, [], ◌≡◌, refl, ◌⊎◌, none, some, inl, inr, Option-cases}
use penguard.Prelude.Tables.{select}
use penguard.Http.{ok, raised, http_error}
use penguard.Soar.Models.{Playbook}
use penguard.Soar.Store.{SoarStore, get_playbook, get_run}
use penguard.Soar.Service.{Request, serve, get_playbook_or_404}
use penguard.Soar.Service.Outcomes.{IsValid}
use penguard.Soar.Service.Guards.{serve-system}
use penguard.Soar.Service.Invariant.{IsSound, serve-IsSound, get_playbook_or_404-IsSound}
use penguard.Soar.Defaults.{default_playbooks, seed_playbooks}
use penguard.Soar.Defaults.Seeded.{seeded_in, seed_default_playbooks, built_in-system}

abbrev pub empty : SoarStore
empty = record { playbooks = []; playbook_runs = [] }

pub empty-IsSound : IsSound empty
unfolding get_playbook get_run select
empty-IsSound = record { playbooks = λ id p h. cc; runs = λ id r h. cc }

empty-none : (id : String) → get_playbook id empty ≡ none
unfolding get_playbook select
empty-none id = refl

-- The store when the service has started on an empty one, and after the requests.
abbrev pub served : List Request → SoarStore
served requests = serve requests (seed_playbooks default_playbooks empty).1

served-IsSound : (requests : List Request) → IsSound (served requests)
served-IsSound requests =
    let (_, sound, _, _) = seed_default_playbooks empty "" empty-IsSound in
    serve-IsSound requests (seed_playbooks default_playbooks empty).1 sound

served-built_in :
    (requests : List Request) (id : String) (p : Playbook)
    → select Playbook.id id default_playbooks ≡ some p
    → get_playbook id (served requests) ≡ some p
served-built_in requests id p h =
    let (_, _, seen, _) = seed_default_playbooks empty id empty-IsSound in
    serve-system requests (seed_playbooks default_playbooks empty).1 id p
      (rw (seeded_in, h, empty-none id) at seen) (built_in-system id p h)

-- After the start on an empty store and any requests, reading a playbook never fails with an error
-- 500 and never changes the store. The id of a built-in playbook gives the built-in exactly as it is
-- declared. Any other id gives the error 404 if no playbook is stored under it, and otherwise the
-- stored playbook, which has this id and passes all checks of a playbook that is saved.
pub get_playbook_or_404-served :
    (requests : List Request) (id : String)
    → ((p : Playbook) × (select Playbook.id id default_playbooks ≡ some p)
        × (get_playbook_or_404 id (served requests) ≡ (ok p, served requests)))
      ⊎ ((select Playbook.id id default_playbooks ≡ none)
          × (get_playbook id (served requests) ≡ none)
          × (get_playbook_or_404 id (served requests)
              ≡ (raised (http_error 404 "playbook not found"), served requests)))
      ⊎ ((p : Playbook) × (select Playbook.id id default_playbooks ≡ none)
          × (get_playbook id (served requests) ≡ some p)
          × (p.id ≡ id)
          × IsValid p
          × (get_playbook_or_404 id (served requests) ≡ (ok p, served requests)))
get_playbook_or_404-served requests id =
    let sound : IsSound (served requests) = served-IsSound requests in
    let reads = get_playbook_or_404-IsSound (served requests) sound id in
    elim (Option-cases (select Playbook.id id default_playbooks)) [
      | inr (p, built) ↦
          let there = served-built_in requests id p built in inl (p, built, rw there at reads)
      | inl other ↦ inr (elim (Option-cases (get_playbook id (served requests))) [
        | inl gone ↦ inl (other, gone, rw gone at reads)
        | inr (p, found) ↦
            let (own, valid) = sound.playbooks id p found in
            inr (p, other, found, own, valid, rw found at reads)
      ])
    ]
