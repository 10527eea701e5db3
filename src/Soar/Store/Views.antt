-- ===== src/Soar/Store/Views.antt =====
-- What `get_playbook` and `get_run` find after each write.
use mathlib.Core.Option
use penguard.Prelude.{
  ℕ, String, ◌≡◌, refl, none, some, ◌==◌, arith, if◌then◌else◌, Option-cases, inl, inr,
}
use penguard.Prelude.Tables.{select-update, select-delete, select-insert, insert, insert-none}
use penguard.Soar.Models.{Playbook, PlaybookRun, Status}
use penguard.Soar.Store.{
  SoarStore, PlaybookRow, RunRow, playbook_key, run_key, get_playbook, save_playbook,
  update_playbook, delete_playbook, get_run, save_run, update_run,
}

module _ (j k : String) (p : Playbook) (s : SoarStore) where
  pub get_playbook-update_playbook :
      get_playbook j (update_playbook k p s)
      ≡ (if k == j then Option.map (λ _. p) (get_playbook j s) else get_playbook j s)
  unfolding get_playbook update_playbook
  get_playbook-update_playbook = ground (
    arith,
    select-update playbook_key k j (λ row. record row { payload = p }) s.playbooks (λ row. refl),
  )

  pub get_playbook-save_playbook :
      {s' : SoarStore}
      → save_playbook k p s ≡ some s'
      → get_playbook j s' ≡ (if k == j then some p else get_playbook j s)
  unfolding get_playbook save_playbook
  get_playbook-save_playbook {s'} h =
      let row : PlaybookRow = record { id = k; payload = p } in
      elim (Option-cases (insert playbook_key row s.playbooks)) [
        | inl full ↦ ground (arith, full, h)
        | inr (rows, e) ↦ ground (arith, e, h, select-insert playbook_key j row s.playbooks e)
      ]

  pub get_run-save_playbook :
      {s' : SoarStore} → save_playbook k p s ≡ some s' → get_run j s' ≡ get_run j s
  unfolding get_run save_playbook
  get_run-save_playbook h = ground arith

pub get_playbook-delete_playbook :
    (j k : String) (s : SoarStore)
    → get_playbook j (delete_playbook k s) ≡ (if k == j then none else get_playbook j s)
unfolding get_playbook delete_playbook
get_playbook-delete_playbook j k s = ground (arith, select-delete playbook_key k j s.playbooks)

module _ (j : String) (r : PlaybookRun) (s : SoarStore) where
  pub get_run-update_run :
      (status : Status)
      → get_run j (update_run r status s)
        ≡ (if r.id == j then Option.map (λ _. r) (get_run j s) else get_run j s)
  unfolding get_run update_run
  get_run-update_run status = ground (
    arith,
    select-update run_key r.id j (λ row. record row { status = status; payload = r })
        s.playbook_runs (λ row. refl),
  )

  pub get_run-save_run :
      (incident_id playbook_id : String) (status : Status) (created_at : ℕ) {s' : SoarStore}
      → save_run r incident_id playbook_id status created_at s ≡ some s'
      → get_run j s' ≡ (if r.id == j then some r else get_run j s)
  unfolding get_run save_run
  get_run-save_run incident_id playbook_id status created_at {s'} h =
      let row : RunRow = record {
        id = r.id;
        incident_id = incident_id;
        playbook_id = playbook_id;
        status = status;
        created_at = created_at;
        payload = r;
      } in
      elim (Option-cases (insert run_key row s.playbook_runs)) [
        | inl full ↦ ground (arith, full, h)
        | inr (rows, e) ↦ ground (arith, e, h, select-insert run_key j row s.playbook_runs e)
      ]

-- Writing runs leaves the playbooks alone, and the other way round.
module _ (j : String) (s : SoarStore) where
  pub get_playbook-save_run :
      (r : PlaybookRun) (incident_id playbook_id : String) (status : Status) (created_at : ℕ)
      {s' : SoarStore}
      → save_run r incident_id playbook_id status created_at s ≡ some s'
      → get_playbook j s' ≡ get_playbook j s
  unfolding get_playbook save_run
  get_playbook-save_run r incident_id playbook_id status created_at h = ground arith

  pub get_playbook-update_run :
      (r : PlaybookRun) (status : Status)
      → get_playbook j (update_run r status s) ≡ get_playbook j s
  unfolding get_playbook update_run
  get_playbook-update_run r status = refl

  pub get_run-update_playbook :
      (k : String) (p : Playbook) → get_run j (update_playbook k p s) ≡ get_run j s
  unfolding get_run update_playbook
  get_run-update_playbook k p = refl

  pub get_run-delete_playbook : (k : String) → get_run j (delete_playbook k s) ≡ get_run j s
  unfolding get_run delete_playbook
  get_run-delete_playbook k = refl

-- Under a free id a playbook can be saved.
pub save_playbook-fresh :
    (k : String) (p : Playbook) (s : SoarStore)
    → get_playbook k s ≡ none
    → (s' : SoarStore) × (save_playbook k p s ≡ some s')
unfolding get_playbook save_playbook
save_playbook-fresh k p s h =
    let row : PlaybookRow = record { id = k; payload = p } in
    elim (Option-cases (insert playbook_key row s.playbooks)) [
      | inl full ↦ absurd (ground (arith, h, insert-none playbook_key row s.playbooks full))
      | inr (rows, e) ↦ (record s { playbooks = rows }, rw e)
    ]
