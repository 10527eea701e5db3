-- ===== src/Soar/Service/Invariant.antt =====
-- apps/soar_skipper/app: what holds of the store between two requests.
use penguard.Prelude.{
  ℕ, String, List, [], ◌∷◌, ◌≡◌, refl, sym, ◌∙◌, ◌⊎◌, none, some, eq_iff, arith, any, if◌then◌else◌,
  inl, inr, Option-cases,
}
use penguard.Http.{ok, raised, http_error}
use penguard.Soar.Models.{Playbook, PlaybookRun, waiting_approval, completed}
use penguard.Soar.Store.{SoarStore, get_playbook, get_run, update_playbook, update_run}
use penguard.Soar.Store.Views.{
  get_playbook-update_playbook, get_playbook-save_playbook, get_playbook-delete_playbook,
  get_playbook-save_run, get_playbook-update_run, get_run-save_playbook, get_run-update_run,
  get_run-save_run, get_run-update_playbook, get_run-delete_playbook,
}
use penguard.Soar.Runs.{step_is_waiting, build_playbook_run, approved_run}
use penguard.Soar.Runs.Laws.{approved_run-settled}
use penguard.Soar.Service.{
  Request, create, update, delete, simulate, run, approve, handle, serve, get_playbook_or_404,
  model_validate,
}
use penguard.Soar.Service.Outcomes.{
  IsValid, user_copy, create-cases, update-cases, delete-cases, run-cases, approve-cases,
  simulate_state,
}

-- A run waits for approval exactly if one of its steps does, and is completed otherwise.
abbrev TellsWaiting : PlaybookRun → Type 0
TellsWaiting r = r.status ≡ (if any step_is_waiting r.steps then waiting_approval else completed)

pub record IsSound (s : SoarStore) : Type 0 where
  pub playbooks :
      (id : String) (p : Playbook) → get_playbook id s ≡ some p → (p.id ≡ id) × IsValid p
  pub runs : (id : String) (r : PlaybookRun) → get_run id s ≡ some r → (r.id ≡ id) × TellsWaiting r

build-TellsWaiting :
    (p : Playbook) (incident_id : String) (now : ℕ) (hex : String)
    → TellsWaiting (build_playbook_run p incident_id now hex)
unfolding build_playbook_run
build-TellsWaiting p incident_id now hex = refl

approved-TellsWaiting : (now : ℕ) (r : PlaybookRun) → TellsWaiting (approved_run now r)
approved-TellsWaiting now r = let (done, steps, _) = approved_run-settled now r in rw (done, steps)

approved_run-id : (now : ℕ) (r : PlaybookRun) → (approved_run now r).id ≡ r.id
unfolding approved_run
approved_run-id now r = refl

module _ (s : SoarStore) (sound : IsSound s) where
  -- Writing a valid playbook under its own id.
  pub put_playbook-IsSound :
      (s' : SoarStore) (k : String) (p : Playbook)
      → p.id ≡ k
      → IsValid p
      → ((j : String) (q : Playbook)
          → get_playbook j s' ≡ some q
          → ((k ≡ j) × (q ≡ p)) ⊎ (get_playbook j s ≡ some q))
      → ((j : String) → get_run j s' ≡ get_run j s)
      → IsSound s'
  put_playbook-IsSound s' k p own valid seen same = record {
    playbooks = λ j q h. elim (seen j q h) [
      | inl (there, new) ↦ rw new (own ∙ there, valid)
      | inr old ↦ sound.playbooks j q old
    ];
    runs = λ j r h. sound.runs j r (sym (same j) ∙ h);
  }

  create-IsSound : (body : Playbook) → IsSound (handle (create body) s)
  unfolding handle
  create-IsSound body = elim (create-cases body s) [
    | inl (same, _) ↦ rw (same, handle) sound
    | inr c ↦
        rw (c.result, handle)
          (put_playbook-IsSound c.after body.id (user_copy body) refl c.valid
            (λ j q h. ground (
              arith,
              h,
              get_playbook-save_playbook j body.id (user_copy body) s c.saved,
              eq_iff body.id j,
            ))
            (λ j. get_run-save_playbook j body.id (user_copy body) s c.saved))
  ]

  update-IsSound : (k : String) (body : Playbook) → IsSound (handle (update k body) s)
  unfolding handle
  update-IsSound k body = elim (update-cases k body s) [
    | inl (same, _) ↦ rw (same, handle) sound
    | inr c ↦
        rw (c.result, handle)
          (put_playbook-IsSound (update_playbook k (user_copy body) s) k (user_copy body) c.own_id
            c.valid
            (λ j q h.
              ground (
                arith,
                h,
                get_playbook-update_playbook j k (user_copy body) s,
                c.found,
                eq_iff k j,
              ))
            (λ j. get_run-update_playbook j s k (user_copy body)))
  ]

  delete-IsSound : (k : String) → IsSound (handle (delete k) s)
  unfolding handle
  delete-IsSound k = elim (delete-cases k s) [
    | inl (same, _) ↦ rw (same, handle) sound
    | inr c ↦
        rw (c.result, handle)
          (record {
            playbooks = λ j q h.
                sound.playbooks j q (ground (arith, h, get_playbook-delete_playbook j k s));
            runs = λ j r h. sound.runs j r (sym (get_run-delete_playbook j s k) ∙ h);
          })
  ]

  -- Writing a run that tells truly whether it waits, under its own id.
  put_run-IsSound :
      (s' : SoarStore) (new : PlaybookRun)
      → TellsWaiting new
      → ((j : String) (r : PlaybookRun)
          → get_run j s' ≡ some r
          → ((new.id ≡ j) × (r ≡ new)) ⊎ (get_run j s ≡ some r))
      → ((j : String) → get_playbook j s' ≡ get_playbook j s)
      → IsSound s'
  put_run-IsSound s' new tells seen same = record {
    playbooks = λ j q h. sound.playbooks j q (sym (same j) ∙ h);
    runs = λ j r h. elim (seen j r h) [
      | inl (there, now) ↦ rw now (there, tells)
      | inr old ↦ sound.runs j r old
    ];
  }

  run-IsSound :
      (incident_id k : String) (now : ℕ) (hex : String)
      → IsSound (handle (run incident_id k now hex) s)
  unfolding handle
  run-IsSound incident_id k now hex = elim (run-cases incident_id k now hex s) [
    | inl (same, _) ↦ rw (same, handle) sound
    | inr c ↦
        let new : PlaybookRun = build_playbook_run c.playbook incident_id now hex in
        rw (c.result, handle)
          (put_run-IsSound c.after new (build-TellsWaiting c.playbook incident_id now hex)
            (λ j r h. ground (arith, h, get_run-save_run j new s _ _ _ _ c.saved, eq_iff new.id j))
            (λ j. get_playbook-save_run j s new _ _ _ _ c.saved))
  ]

  approve-IsSound : (run_id : String) (now : ℕ) → IsSound (handle (approve run_id now) s)
  unfolding handle
  approve-IsSound run_id now = elim (approve-cases run_id now s) [
    | inl (same, _) ↦ rw (same, handle) sound
    | inr c ↦
        let new : PlaybookRun = approved_run now c.old in
        rw (c.result, handle)
          (put_run-IsSound (update_run new new.status s) new (approved-TellsWaiting now c.old)
            (λ j r h. elim (Option-cases (get_run j s)) [
              | inl gone ↦ ground (arith, h, gone, get_run-update_run j new s new.status)
              | inr (q, e) ↦
                  ground (arith, h, e, get_run-update_run j new s new.status, eq_iff new.id j)
            ])
            (λ j. get_playbook-update_run j s new new.status))
  ]

  handle-IsSound : (request : Request) → IsSound (handle request s)
  unfolding handle
  handle-IsSound (create body) = create-IsSound body
  handle-IsSound (update k body) = update-IsSound k body
  handle-IsSound (delete k) = delete-IsSound k
  handle-IsSound (simulate k) = rw (simulate_state k s, handle) sound
  handle-IsSound (run incident_id k now hex) = run-IsSound incident_id k now hex
  handle-IsSound (approve run_id now) = approve-IsSound run_id now

  -- In a sound store no playbook fails to load: a read gives the playbook or 404.
  pub get_playbook_or_404-IsSound :
      (id : String)
      → get_playbook_or_404 id s ≡ (
        elim (get_playbook id s) [
          | none ↦ raised (http_error 404 "playbook not found")
          | some p ↦ ok p
        ],
        s,
      )
  unfolding get_playbook_or_404 model_validate
  get_playbook_or_404-IsSound id = elim (Option-cases (get_playbook id s)) [
    | inl gone ↦ rw gone
    | inr (p, found) ↦
        let (_, valid) = sound.playbooks id p found in rw (found, valid.bounds, valid.graph)
  ]

-- Every sequence of requests keeps a sound store sound: each playbook in it is valid and has its own
-- id, and each run in it waits for approval exactly if one of its steps does.
pub serve-IsSound :
    (requests : List Request) (s : SoarStore) → IsSound s → IsSound (serve requests s)
unfolding serve
serve-IsSound [] s sound = sound
serve-IsSound (request ∷ requests) s sound =
    serve-IsSound requests (handle request s) (handle-IsSound s sound request)
