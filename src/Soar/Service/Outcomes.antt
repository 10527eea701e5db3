-- ===== src/Soar/Service/Outcomes.antt =====
-- apps/soar_skipper/app/main.py: the outcomes of each handler that writes.
use penguard.Prelude.{
  ℕ, String, List, [], ◌∷◌, ◌≡◌, refl, ◌∙◌, Bool, true, false, none, some, ◌==◌, eq_iff, arith,
  Option-cases, Bool-cases, inl, inr, ◌⊎◌,
}
use penguard.Http.{Reply, ok, raised, HttpError, Handler, http_error}
use penguard.Soar.Models.{
  Playbook, PlaybookRun, fields_in_bounds, validate_graph, validate_playbook_for_save,
}
use penguard.Soar.Store.{
  SoarStore, get_playbook, get_run, save_playbook, update_playbook, delete_playbook, save_run,
  update_run,
}
use penguard.Soar.Runs.{build_playbook_run, approved_run}
use penguard.Soar.Service.{
  create_playbook, update_playbook_handler, delete_playbook_handler, run_playbook,
  approve_playbook_run, simulate_playbook, model_validate, get_playbook_or_404, is_empty,
  invalid_body, server_error,
}

-- What pydantic and the save check accept.
pub record IsValid (p : Playbook) : Type 0 where
  pub bounds : fields_in_bounds p ≡ true
  pub graph : validate_graph p ≡ none
  pub saves : validate_playbook_for_save p ≡ []

abbrev is_raised {ℓ} : {A : Type ℓ} → Reply A → Bool
is_raised (ok _) = false
is_raised (raised _) = true

-- The handler raises, and the store is as it was.
abbrev pub Refused : {A : Type 0} → Handler SoarStore A → SoarStore → Type 0
Refused m s = ((m s).1 ≡ s) × (is_raised (m s).0 ≡ true)

abbrev pub user_copy : Playbook → Playbook
user_copy body = record body { system = false }

-- The flag `system` takes no part in the checks.
with_system-bounds :
    (p : Playbook) (system : Bool)
    → fields_in_bounds (record p { system = system }) ≡ fields_in_bounds p
unfolding fields_in_bounds
with_system-bounds p system = refl

with_system-graph :
    (p : Playbook) (system : Bool)
    → validate_graph (record p { system = system }) ≡ validate_graph p
unfolding validate_graph
with_system-graph p system = refl

pub with_system-IsValid :
    (p : Playbook) (system : Bool) → IsValid p → IsValid (record p { system = system })
unfolding validate_playbook_for_save
with_system-IsValid p system valid = record {
  bounds = with_system-bounds p system ∙ valid.bounds;
  graph = with_system-graph p system ∙ valid.graph;
  saves = valid.saves;
}

pub record Created (body : Playbook) (s : SoarStore) : Type 0 where
  pub after : SoarStore
  pub valid : IsValid (user_copy body)
  pub fresh : get_playbook body.id s ≡ none
  pub saved : save_playbook body.id (user_copy body) s ≡ some after
  pub result : create_playbook body s ≡ (ok (user_copy body), after)

model_validate-cases :
    (e : HttpError) (p : Playbook)
    → (model_validate e p ≡ raised e)
      ⊎ ((model_validate e p ≡ ok p) × (fields_in_bounds p ≡ true) × (validate_graph p ≡ none))
unfolding model_validate
model_validate-cases e p = ground arith

List-cases : (l : List String) → (l ≡ []) ⊎ (is_empty l ≡ false)
List-cases [] = inl refl
List-cases (x ∷ l) = inr refl

module _ (body : Playbook) (s : SoarStore) where
  -- A create either is refused and writes nothing, or the body is valid, its id was free, and it is
  -- stored and returned as a user's playbook.
  pub create-cases : Refused (create_playbook body) s ⊎ Created body s
  unfolding create_playbook
  create-cases = elim (model_validate-cases invalid_body body) [
    | inl bad ↦ inl (rw bad, rw bad)
    | inr (good, bounds, graph) ↦ elim (Option-cases (get_playbook body.id s)) [
      | inr (old, e) ↦ inl ((rw (good, e)), (rw (good, e)))
      | inl fresh ↦ elim (List-cases (validate_playbook_for_save (user_copy body))) [
        | inr bad ↦ inl ((rw (good, fresh, bad)), (rw (good, fresh, bad)))
        | inl saves ↦ elim (Option-cases (save_playbook body.id (user_copy body) s)) [
          | inl taken ↦ inl ((rw (good, fresh, saves, taken)), (rw (good, fresh, saves, taken)))
          | inr (after, saved) ↦ inr (record {
            after = after;
            valid = record {
              bounds = with_system-bounds body false ∙ bounds;
              graph = with_system-graph body false ∙ graph;
              saves = saves;
            };
            fresh = fresh;
            saved = saved;
            result = rw (good, fresh, saves, saved);
          })
        ]
      ]
    ]
  ]

load-cases :
    (k : String) (s : SoarStore)
    → ((e : HttpError) × (get_playbook_or_404 k s ≡ (raised e, s)))
      ⊎ ((p : Playbook) × (get_playbook k s ≡ some p) × (get_playbook_or_404 k s ≡ (ok p, s)))
unfolding get_playbook_or_404
load-cases k s = elim (Option-cases (get_playbook k s)) [
  | inl gone ↦ inl (http_error 404 "playbook not found", rw gone)
  | inr (p, found) ↦ elim (model_validate-cases server_error p) [
    | inl bad ↦ inl (server_error, rw (found, bad))
    | inr (good, _, _) ↦ inr (p, found, rw (found, good))
  ]
]

module _ (playbook_id : String) (body : Playbook) (s : SoarStore) where
  pub record Updated : Type 0 where
    pub old : Playbook
    pub own_id : body.id ≡ playbook_id
    pub found : get_playbook playbook_id s ≡ some old
    pub writable : old.system ≡ false
    pub valid : IsValid (user_copy body)
    pub result :
        update_playbook_handler playbook_id body s
        ≡ (ok (user_copy body), update_playbook playbook_id (user_copy body) s)

  -- An update either is refused and writes nothing, or the body is valid and has the path's id, the
  -- playbook was there and no system playbook, and the body replaces it as a user's playbook.
  pub update-cases : Refused (update_playbook_handler playbook_id body) s ⊎ Updated
  unfolding update_playbook_handler
  update-cases = elim (model_validate-cases invalid_body body) [
    | inl bad ↦ inl (rw bad, rw bad)
    | inr (good, bounds, graph) ↦ elim (Bool-cases (body.id == playbook_id)) [
      | inr other ↦ inl (rw (good, other), rw (good, other))
      | inl same ↦ elim (load-cases playbook_id s) [
        | inl (e, failed) ↦ inl (rw (good, same, failed), rw (good, same, failed))
        | inr (old, found, loaded) ↦ elim (Bool-cases old.system) [
          | inl sys ↦ inl (rw (good, same, loaded, sys), rw (good, same, loaded, sys))
          | inr own ↦ elim (List-cases (validate_playbook_for_save (user_copy body))) [
            | inr bad ↦ inl (rw (good, same, loaded, own, bad), rw (good, same, loaded, own, bad))
            | inl saves ↦ inr (record {
              old = old;
              own_id = (eq_iff body.id playbook_id).0 same;
              found = found;
              writable = own;
              valid = record {
                bounds = with_system-bounds body false ∙ bounds;
                graph = with_system-graph body false ∙ graph;
                saves = saves;
              };
              result = rw (good, same, loaded, own, saves);
            })
          ]
        ]
      ]
    ]
  ]

module _ (playbook_id : String) (s : SoarStore) where
  pub record Deleted : Type 0 where
    pub old : Playbook
    pub found : get_playbook playbook_id s ≡ some old
    pub writable : old.system ≡ false
    pub result : delete_playbook_handler playbook_id s ≡ (ok tt, delete_playbook playbook_id s)

  -- A delete either is refused and writes nothing, or the playbook was there and no system playbook,
  -- and its row is removed.
  pub delete-cases : Refused (delete_playbook_handler playbook_id) s ⊎ Deleted
  unfolding delete_playbook_handler
  delete-cases = elim (load-cases playbook_id s) [
    | inl (e, failed) ↦ inl (rw failed, rw failed)
    | inr (old, found, loaded) ↦ elim (Bool-cases old.system) [
      | inl sys ↦ inl (rw (loaded, sys), rw (loaded, sys))
      | inr own ↦
          inr (record { old = old; found = found; writable = own; result = rw (loaded, own) })
    ]
  ]

module _ (incident_id playbook_id : String) (now : ℕ) (hex : String) (s : SoarStore) where
  pub record Ran : Type 0 where
    pub playbook : Playbook
    pub after : SoarStore
    pub found : get_playbook playbook_id s ≡ some playbook
    pub saved :
        let new = build_playbook_run playbook incident_id now hex in
        save_run new new.incident_id new.playbook_id new.status new.created_at s ≡ some after
    pub result :
        run_playbook incident_id playbook_id now hex s
        ≡ (ok (build_playbook_run playbook incident_id now hex), after)

  -- A run either is refused and writes nothing, or the playbook was there and the run that
  -- `build_playbook_run` makes is stored and returned.
  pub run-cases : Refused (run_playbook incident_id playbook_id now hex) s ⊎ Ran
  unfolding run_playbook
  run-cases = elim (load-cases playbook_id s) [
    | inl (e, failed) ↦ inl (rw failed, rw failed)
    | inr (p, found, loaded) ↦
        let new = build_playbook_run p incident_id now hex in
        elim (Option-cases
          (save_run new new.incident_id new.playbook_id new.status new.created_at s)) [
            | inl taken ↦ inl (rw (loaded, taken), rw (loaded, taken))
            | inr (after, saved) ↦ inr (record {
              playbook = p;
              after = after;
              found = found;
              saved = saved;
              result = rw (loaded, saved);
            })
          ]
  ]

module _ (run_id : String) (now : ℕ) (s : SoarStore) where
  pub record Approved : Type 0 where
    pub old : PlaybookRun
    pub found : get_run run_id s ≡ some old
    pub result : approve_playbook_run run_id now s ≡ (
      ok (approved_run now old),
      update_run (approved_run now old) (approved_run now old).status s,
    )

  pub approve-cases : Refused (approve_playbook_run run_id now) s ⊎ Approved
  unfolding approve_playbook_run
  approve-cases = elim (Option-cases (get_run run_id s)) [
    | inl gone ↦ inl (rw gone, rw gone)
    | inr (old, found) ↦ inr (record { old = old; found = found; result = rw found })
  ]

-- A simulation writes nothing.
pub simulate_state :
    (playbook_id : String) (s : SoarStore) → (simulate_playbook playbook_id s).1 ≡ s
unfolding simulate_playbook
simulate_state playbook_id s = elim (load-cases playbook_id s) [
  | inl (e, failed) ↦ rw failed
  | inr (p, found, loaded) ↦ rw loaded
]
