-- ===== src/Xdr/Service/ActionIds.antt =====
-- apps/xdr_rico/app: the ids of the actions over sequences of requests.
use penguard.Prelude.{
  ℕ, ◌+◌, ◌≤◌, String, concat, List, [], ◌∷◌, ◌++◌, ◌≡◌, refl, false, Option, none, some, ◌==◌, map,
  arith, eq_iff, if◌then◌else◌, inl, inr, Option-cases, Bool-cases, ap, ◌∙◌,
}
use penguard.Prelude.Counts.{count}
use penguard.Prelude.Tables.{select, update, delete, insert, taken, IsUnique}
use penguard.Http.{HttpError, Reply-cases, Reply, ok, raised, Handler, continue, require, ◌>>=◌}
use penguard.Xdr.Models.{
  EventCreate, ActionKind, ActionStatus, Action, Attributes, queued, EnrollmentRecord,
  status_of_result,
}
use penguard.Xdr.Store.{
  XdrStore, ActionRow, action_key, action_endpoint, add_enrollment, get_enrollment_by_token_hash,
  claim_enrollment_endpoint, upsert_endpoint, add_timeline_item, add_action,
  delete_endpoint as delete_endpoint_rows, claim_first, claim_next_action, get_endpoint,
  finished_action, queued_rows, update_action_result,
}
use penguard.Xdr.Enrollment.{
  require_enrollment_token_for_endpoint, create_enrollment, pair_enrollment, pair_claimed,
  bind_claimed, claim_for, bearer_token,
}
use penguard.Xdr.Events.{ingest_endpoint_event}
use penguard.Xdr.Actions.{
  delete_endpoint_handler, create_endpoint_action, claim_endpoint_action, complete_endpoint_action,
}
use penguard.Xdr.Service.{
  Request, enroll, pair, event, create_action, claim, complete, delete_endpoint,
  create_authorized_endpoint_event, handle, serve,
}

module _ {R : Type 0} (key : R → String) where
  count-absent : (k : String) (t : List R) → taken key k t ≡ false → count k (map key t) ≡ 0
  unfolding taken
  count-absent k [] h = refl
  count-absent k (r ∷ t) h = ground (arith, h, count-absent k t)

  count-insert :
      (k : String) (r : R) (t : List R)
      → count k (map key (t ++ r ∷ [])) ≡ count k (map key t) + (if key r == k then 1 else 0)
  count-insert k r [] = omega arith
  count-insert k r (x ∷ t) = omega (arith, count-insert k r t)

  insert-IsUnique :
      (r : R) (t : List R) {t' : List R}
      → IsUnique key t
      → insert key r t ≡ some t'
      → IsUnique key t'
  unfolding insert
  insert-IsUnique r t {t'} once h k =
      ground (arith, h, once k, count-insert k r t, count-absent (key r) t, eq_iff (key r) k)

  update-IsUnique :
      (j : String) (f : R → R) (t : List R)
      → ((r : R) → key (f r) ≡ key r)
      → (k : String) → count k (map key (update key j f t)) ≡ count k (map key t)
  unfolding update
  update-IsUnique j f [] keep k = refl
  update-IsUnique j f (r ∷ t) keep k = ground (arith, keep r, update-IsUnique j f t keep k)

  delete-IsUnique :
      (by : R → String) (j : String) (t : List R) (k : String)
      → count k (map key (delete by j t)) ≤ count k (map key t)
  unfolding delete
  delete-IsUnique by j [] k = ground arith
  delete-IsUnique by j (r ∷ t) k = ground (arith, delete-IsUnique by j t k)

-- No two actions have one id.
abbrev pub HasUniqueActions : XdrStore → Type 0
HasUniqueActions s = IsUnique action_key s.actions

-- The new row of an action.
abbrev row_of : Action → ActionRow
row_of action = record {
  id = action.id;
  endpoint_id = action.endpoint_id;
  status = action.status;
  created_at = action.created_at;
  payload = action;
}

abbrev action_of : String → ActionKind → Attributes → ℕ → String → Action
action_of ep kind parameters now hex = record {
  id = concat "act_" hex;
  endpoint_id = ep;
  kind = kind;
  status = queued;
  parameters = parameters;
  created_at = now;
  claimed_at = none;
  completed_at = none;
  result = [];
}

create_action-HasUniqueActions :
    (ep : String) (kind : ActionKind) (parameters : Attributes) (now : ℕ) (hex : String)
    (s : XdrStore)
    → HasUniqueActions s
    → HasUniqueActions (create_endpoint_action ep kind parameters now hex s).1
unfolding create_endpoint_action add_action
create_action-HasUniqueActions ep kind parameters now hex s once =
    elim (Option-cases (get_endpoint ep s)) [
      | inl gone ↦ rw gone once
      | inr (endpoint, found) ↦
          let row = row_of (action_of ep kind parameters now hex) in
          elim (Option-cases (insert action_key row s.actions)) [
            | inl taken_id ↦ rw (found, taken_id) once
            | inr (rows, e) ↦ rw (found, e) (insert-IsUnique action_key row s.actions once e)
          ]
    ]

claim_first-count :
    (now : ℕ) (rows : List ActionRow) (s : XdrStore) (k : String)
    → count k (map action_key (claim_first now rows s).1.actions)
      ≡ count k (map action_key s.actions)
unfolding claim_first
claim_first-count now [] s k = refl
claim_first-count now (row ∷ rows) s k = update-IsUnique action_key row.id _ s.actions (λ r. refl) k

update_result-count :
    (ep id : String) (status : ActionStatus) (result : Attributes) (now : ℕ) (s : XdrStore)
    (k : String)
    → count k (map action_key (update_action_result ep id status result now s).1.actions)
      ≡ count k (map action_key s.actions)
unfolding update_action_result
update_result-count ep id status result now s k =
    elim (Option-cases (select action_key id s.actions)) [
      | inl gone ↦ rw (gone, update_action_result) refl
      | inr (row, e) ↦ elim (Bool-cases (row.payload.endpoint_id == ep)) [
        | inl own ↦
            rw (e, update_action_result, own)
              (update-IsUnique action_key id
                (λ r. record r {
                  status = status;
                  payload = finished_action status result now row.payload;
                })
                s.actions (λ r. refl) k)
        | inr other ↦ rw (e, update_action_result, other) refl
      ]
    ]

delete-HasUniqueActions :
    (ep : String) (s : XdrStore)
    → HasUniqueActions s
    → HasUniqueActions (delete_endpoint_handler ep s).1
unfolding delete_endpoint_handler delete_endpoint_rows
delete-HasUniqueActions ep s once k =
    ground (arith, once k, delete-IsUnique action_key action_endpoint ep s.actions k)

ingest-actions :
    (body : EventCreate) (hex : String) (s : XdrStore)
    → (ingest_endpoint_event body hex s).1.actions ≡ s.actions
unfolding ingest_endpoint_event upsert_endpoint add_timeline_item
ingest-actions body hex s = ground arith

claim_for-actions :
    (e : EnrollmentRecord) (ep : String) (s : XdrStore) → (claim_for e ep s).1.actions ≡ s.actions
unfolding claim_for claim_enrollment_endpoint
claim_for-actions e ep s = ground arith

bind_claimed-actions :
    (c : Option String) (e : EnrollmentRecord) (ep : String) (s : XdrStore)
    → (bind_claimed c e ep s).1.actions ≡ s.actions
unfolding bind_claimed
bind_claimed-actions none e ep s = claim_for-actions e ep s
bind_claimed-actions (some c) e ep s = ground arith

pair_claimed-actions :
    (c : Option String) (e : EnrollmentRecord) (s : XdrStore)
    → (pair_claimed c e s).1.actions ≡ s.actions
unfolding pair_claimed
pair_claimed-actions none e s = ground (arith, claim_for-actions e e.id s)
pair_claimed-actions (some c) e s = refl

continue-count :
    {A B : Type 0} (r : Reply A) (f : A → Handler XdrStore B) (s : XdrStore) (k : String)
    → ((a : A) (s' : XdrStore) (k' : String)
        → count k' (map action_key (f a s').1.actions) ≡ count k' (map action_key s'.actions))
    → count k (map action_key (continue r f s).1.actions) ≡ count k (map action_key s.actions)
continue-count (ok a) f s k keep = keep a s k
continue-count (raised e) f s k keep = refl

require_found-count :
    (e : HttpError) (found : Option Action) (s : XdrStore) (k : String)
    → count k (map action_key (require e found s).1.actions) ≡ count k (map action_key s.actions)
require_found-count e none s k = refl
require_found-count e (some action) s k = refl

module _ (sha256_hex : String → String) where
  require-actions :
      (authorization : Option String) (ep : String) (s : XdrStore)
      → (require_enrollment_token_for_endpoint sha256_hex authorization ep s).1.actions ≡ s.actions
  unfolding require_enrollment_token_for_endpoint
  require-actions authorization ep s = elim (Reply-cases (bearer_token authorization)) [
    | inr (e, bad) ↦ rw bad refl
    | inl (token, good) ↦ elim (Option-cases (get_enrollment_by_token_hash (sha256_hex token) s)) [
      | inl gone ↦ rw (good, gone) refl
      | inr (e, f) ↦ rw (good, f) (bind_claimed-actions e.claimed_endpoint_id e ep s)
    ]
  ]

  -- A handler that runs behind the token check.
  authorized-HasUniqueActions :
      {B : Type 0} (authorization : Option String) (ep : String)
      (f : EnrollmentRecord → Handler XdrStore B) (s : XdrStore)
      → ((e : EnrollmentRecord) (s' : XdrStore) (k : String)
          → count k (map action_key (f e s').1.actions) ≡ count k (map action_key s'.actions))
      → HasUniqueActions s
      → HasUniqueActions
          ((require_enrollment_token_for_endpoint sha256_hex authorization ep >>= f) s).1
  authorized-HasUniqueActions authorization ep f s keep once k = omega (
    arith,
    continue-count (require_enrollment_token_for_endpoint sha256_hex authorization ep s).0 f
        (require_enrollment_token_for_endpoint sha256_hex authorization ep s).1 k keep,
    once k,
    ap (λ (rows : List ActionRow). count k (map action_key rows))
        (require-actions authorization ep s),
  )

  handle-HasUniqueActions :
      (request : Request) (s : XdrStore)
      → HasUniqueActions s
      → HasUniqueActions (handle sha256_hex request s)
  unfolding handle create_enrollment pair_enrollment claim_endpoint_action complete_endpoint_action
      create_authorized_endpoint_event claim_next_action add_enrollment
  handle-HasUniqueActions (enroll name hint now hex token_hex) s once = λ k. ground (arith, once k)
  handle-HasUniqueActions (pair token) s once =
      elim (Option-cases (get_enrollment_by_token_hash (sha256_hex token) s)) [
        | inl gone ↦ rw (gone, handle, pair_enrollment) once
        | inr (e, f) ↦ λ k.
            rw (f, handle, pair_enrollment, pair_claimed-actions e.claimed_endpoint_id e s) (once k)
      ]
  handle-HasUniqueActions (event body authorization hex) s once =
      elim (Bool-cases (body.endpoint_id == "")) [
        | inl empty ↦ rw (empty, handle, create_authorized_endpoint_event) once
        | inr named ↦
            rw (named, handle, create_authorized_endpoint_event)
              (authorized-HasUniqueActions authorization body.endpoint_id
                (λ _. ingest_endpoint_event body hex) s
                (λ e s' k.
                  ap (λ (rows : List ActionRow). count k (map action_key rows))
                    (ingest-actions body hex s'))
                once)
      ]
  handle-HasUniqueActions (create_action ep kind parameters now hex) s once =
      create_action-HasUniqueActions ep kind parameters now hex s once
  handle-HasUniqueActions (claim ep authorization now) s once =
      authorized-HasUniqueActions authorization ep
        (λ _ s'. (ok (claim_next_action ep now s').0, (claim_next_action ep now s').1)) s
        (λ e s' k. claim_first-count now (queued_rows ep s'.actions) s' k) once
  handle-HasUniqueActions (complete ep id status result authorization now) s once =
      authorized-HasUniqueActions authorization ep _ s
        (λ e s' k.
          require_found-count _ _ _ k
          ∙ update_result-count ep id (status_of_result status) result now s' k)
        once
  handle-HasUniqueActions (delete_endpoint ep) s once = delete-HasUniqueActions ep s once

  -- If no two actions have one id, then this is so after every sequence of requests too.
  pub serve-HasUniqueActions :
      (requests : List Request) (s : XdrStore)
      → HasUniqueActions s
      → HasUniqueActions (serve sha256_hex requests s)
  unfolding serve
  serve-HasUniqueActions [] s once = once
  serve-HasUniqueActions (request ∷ requests) s once =
      serve-HasUniqueActions requests (handle sha256_hex request s)
        (handle-HasUniqueActions request s once)
