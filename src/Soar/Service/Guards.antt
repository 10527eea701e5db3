-- ===== src/Soar/Service/Guards.antt =====
-- apps/soar_skipper/app/main.py, system playbooks: what the guards of `update_playbook` and `delete_playbook` give
-- over any sequence of requests.
use penguard.Prelude.{ℕ, String, List, [], ◌∷◌, ◌≡◌, true, some, eq_iff, arith, inl, inr}
use penguard.Soar.Models.{Playbook}
use penguard.Soar.Store.{SoarStore, get_playbook}
use penguard.Soar.Store.Views.{
  get_playbook-update_playbook, get_playbook-save_playbook, get_playbook-delete_playbook,
  get_playbook-save_run, get_playbook-update_run,
}
use penguard.Soar.Service.{Request, create, update, delete, simulate, run, approve, handle, serve}
use penguard.Soar.Service.Outcomes.{
  user_copy, create-cases, update-cases, delete-cases, run-cases, approve-cases, simulate_state,
}

module _ (s : SoarStore) (id : String) (p : Playbook) (there : get_playbook id s ≡ some p) where
  abbrev There : SoarStore → Type 0
  There s' = get_playbook id s' ≡ some p

  create-There : (body : Playbook) → There (handle (create body) s)
  unfolding handle
  create-There body = elim (create-cases body s) [
    | inl (same, _) ↦ rw (same, handle) there
    | inr c ↦
        rw (c.result, handle)
          (ground (
            arith,
            get_playbook-save_playbook id body.id (user_copy body) s c.saved,
            c.fresh,
            there,
            eq_iff body.id id,
          ))
  ]

  run-There :
      (incident_id k : String) (now : ℕ) (hex : String)
      → There (handle (run incident_id k now hex) s)
  unfolding handle
  run-There incident_id k now hex = elim (run-cases incident_id k now hex s) [
    | inl (same, _) ↦ rw (same, handle) there
    | inr c ↦ rw (c.result, handle) (rw (get_playbook-save_run id s _ _ _ _ _ c.saved) there)
  ]

  module _ (sys : p.system ≡ true) where
    -- A system playbook is there, unchanged, after any one request.
    handle-There : (request : Request) → There (handle request s)
    unfolding handle
    handle-There (create body) = create-There body
    handle-There (update k body) = elim (update-cases k body s) [
      | inl (same, _) ↦ rw (same, handle) there
      | inr c ↦
          rw (c.result, handle)
            (ground (
              arith,
              get_playbook-update_playbook id k (user_copy body) s,
              c.found,
              c.writable,
              sys,
              there,
              eq_iff k id,
            ))
    ]
    handle-There (delete k) = elim (delete-cases k s) [
      | inl (same, _) ↦ rw (same, handle) there
      | inr c ↦
          rw (c.result, handle)
            (ground (
              arith,
              get_playbook-delete_playbook id k s,
              c.found,
              c.writable,
              sys,
              there,
              eq_iff k id,
            ))
    ]
    handle-There (simulate k) = rw (simulate_state k s, handle) there
    handle-There (run incident_id k now hex) = run-There incident_id k now hex
    handle-There (approve run_id now) = elim (approve-cases run_id now s) [
      | inl (same, _) ↦ rw (same, handle) there
      | inr c ↦ rw (c.result, handle) (rw get_playbook-update_run there)
    ]

-- No sequence of requests changes or removes a system playbook.
pub serve-system :
    (requests : List Request) (s : SoarStore) (id : String) (p : Playbook)
    → get_playbook id s ≡ some p
    → p.system ≡ true
    → get_playbook id (serve requests s) ≡ some p
unfolding serve
serve-system [] s id p there sys = there
serve-system (request ∷ requests) s id p there sys =
    serve-system requests (handle request s) id p (handle-There s id p there sys request) sys
