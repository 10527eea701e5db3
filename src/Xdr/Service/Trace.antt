-- ===== src/Xdr/Service/Trace.antt =====
-- apps/xdr_rico/app/main.py: the bindings of enrollment tokens over sequences of requests.
use penguard.Prelude.{
  ℕ, String, List, [], ◌∷◌, ◌≡◌, refl, sym, ◌∙◌, ap, Option, none, some, ◌==◌, arith, concat, inl,
  inr, Option-cases, Bool-cases,
}
use penguard.Prelude.Tables.{insert, taken-select}
use penguard.Http.{HttpError, Reply, ok, raised, Handler, continue, require, is_ok, ◌>>=◌}
use penguard.Xdr.Models.{
  EnrollmentRecord, EventCreate, TimelineItem, ActionKind, Action, Attributes, ActionStatus,
  status_of_result,
}
use penguard.Xdr.Store.{
  XdrStore, EnrollmentRow, ActionRow, hash_key, enrollment_key, add_enrollment,
  get_enrollment_by_token_hash, upsert_endpoint, add_timeline_item, add_action, claim_next_action,
  claim_first, queued_rows, update_action_result, delete_endpoint as delete_endpoint_rows,
}
use penguard.Xdr.Enrollment.{
  bearer_token, require_enrollment_token_for_endpoint, create_enrollment, pair_enrollment,
  pair_claimed, new_enrollment,
}
use penguard.Xdr.Enrollment.Binding.{
  IsKeyed, Change, same, claims, adds, Change-IsKeyed, Change-claimed, claim_for-Change, Authorized,
  require-Outcome,
}
use penguard.Xdr.Events.{ingest_endpoint_event}
use penguard.Xdr.Actions.{
  delete_endpoint_handler, create_endpoint_action, claim_endpoint_action, complete_endpoint_action,
}
use penguard.Xdr.Service.{
  Request, enroll, pair, event, create_action, claim, complete, delete_endpoint,
  create_authorized_endpoint_event, handle, serve,
}

-- A handler that leaves the enrollments alone.
abbrev Leaves : {A : Type 0} → Handler XdrStore A → Type 0
Leaves m = (s : XdrStore) → (m s).1.enrollments ≡ s.enrollments

Leaves-continue :
    {A B : Type 0} (r : Reply A) (f : A → Handler XdrStore B) (s : XdrStore)
    → ((a : A) → Leaves (f a))
    → (continue r f s).1.enrollments ≡ s.enrollments
Leaves-continue (ok a) f s h = h a s
Leaves-continue (raised e) f s h = refl

add_timeline_item-enrollments :
    (item : TimelineItem) (s : XdrStore) {s' : XdrStore}
    → add_timeline_item item s ≡ some s'
    → s'.enrollments ≡ s.enrollments
unfolding add_timeline_item
add_timeline_item-enrollments item s h = ground arith

add_action-enrollments :
    (action : Action) (s : XdrStore) {s' : XdrStore}
    → add_action action s ≡ some s'
    → s'.enrollments ≡ s.enrollments
unfolding add_action
add_action-enrollments action s h = ground arith

ingest-Leaves : (body : EventCreate) (hex : String) → Leaves (ingest_endpoint_event body hex)
unfolding ingest_endpoint_event upsert_endpoint add_timeline_item
ingest-Leaves body hex s = ground arith

create_action-Leaves :
    (ep : String) (kind : ActionKind) (parameters : Attributes) (now : ℕ) (hex : String)
    → Leaves (create_endpoint_action ep kind parameters now hex)
unfolding create_endpoint_action add_action
create_action-Leaves ep kind parameters now hex s = ground arith

delete-Leaves : (ep : String) → Leaves (delete_endpoint_handler ep)
unfolding delete_endpoint_handler delete_endpoint_rows
delete-Leaves ep s = ground arith

claim_first-enrollments :
    (now : ℕ) (rows : List ActionRow) (s : XdrStore)
    → (claim_first now rows s).1.enrollments ≡ s.enrollments
unfolding claim_first
claim_first-enrollments now [] s = refl
claim_first-enrollments now (row ∷ rows) s = refl

claim_next-enrollments :
    (ep : String) (now : ℕ) (s : XdrStore)
    → (claim_next_action ep now s).1.enrollments ≡ s.enrollments
unfolding claim_next_action
claim_next-enrollments ep now s = claim_first-enrollments now (queued_rows ep s.actions) s

update_result-enrollments :
    (ep id : String) (status : ActionStatus) (result : Attributes) (now : ℕ) (s : XdrStore)
    → (update_action_result ep id status result now s).1.enrollments ≡ s.enrollments
unfolding update_action_result
update_result-enrollments ep id status result now s = ground arith

require_found-enrollments : (e : HttpError) (found : Option Action) → Leaves (require e found)
require_found-enrollments e none s = refl
require_found-enrollments e (some action) s = refl

-- A change, and then nothing more.
then_leaves : {s m s' : XdrStore} → Change s m → s'.enrollments ≡ m.enrollments → Change s s'
then_leaves (same e) q = same (q ∙ e)
then_leaves (claims h ep row f free e) q = claims h ep row f free (q ∙ e)
then_leaves (adds row own new e) q = adds row own new (e ∙ ap some (sym q))

add-Change :
    (e : EnrollmentRecord) (s : XdrStore) {after : XdrStore}
    → add_enrollment e e.token_hash e.created_at s ≡ some after
    → Change s after
unfolding add_enrollment
add-Change e s {after} h =
    let row : EnrollmentRow = record {
      id = e.id;
      token_hash = e.token_hash;
      created_at = e.created_at;
      payload = e;
    } in
    elim (Option-cases (insert enrollment_key row s.enrollments)) [
      | inl full ↦ absurd (ground (arith, h, full))
      | inr (rows, inserted) ↦
          adds row refl (ground (arith, h, taken-select hash_key e.token_hash s.enrollments))
            (ground (arith, h, inserted))
    ]

pair_claimed-Change :
    (c : Option String) (h : String) (e : EnrollmentRecord) (s : XdrStore)
    → e.claimed_endpoint_id ≡ c
    → get_enrollment_by_token_hash h s ≡ some e
    → IsKeyed s
    → Change s (pair_claimed c e s).1
unfolding pair_claimed
pair_claimed-Change none h e s free f keyed =
    let (change, result, _) = claim_for-Change h e.id e s f free keyed in rw result change
pair_claimed-Change (some claimed) h e s c f keyed = same refl

module _ (sha256_hex : String → String) where
  -- An authorized handler changes the enrollments only by its authorization.
  authorized-Change :
      {B : Type 0} (authorization : Option String) (ep : String)
      (f : EnrollmentRecord → Handler XdrStore B) (s : XdrStore)
      → IsKeyed s
      → ((e : EnrollmentRecord) → Leaves (f e))
      → Change s ((require_enrollment_token_for_endpoint sha256_hex authorization ep >>= f) s).1
  authorized-Change authorization ep f s keyed h =
      let r = require_enrollment_token_for_endpoint sha256_hex authorization ep s in
      let after : (continue r.0 f r.1).1.enrollments ≡ r.1.enrollments =
        Leaves-continue r.0 f r.1 h in
      elim (require-Outcome sha256_hex authorization ep s keyed) [
        | inl (token, good, done) ↦ then_leaves done.change after
        | inr (kept, failed) ↦ same (after ∙ ap XdrStore.enrollments kept)
      ]

  create_enrollment-Change :
      (display_name hint : Option String) (now : ℕ) (hex token_hex : String) (s : XdrStore)
      → Change s (create_enrollment sha256_hex display_name hint now hex token_hex s).1
  unfolding create_enrollment
  create_enrollment-Change display_name hint now hex token_hex s =
      let hashed = sha256_hex (concat "xdr_enroll_" token_hex) in
      let new : EnrollmentRecord =
        new_enrollment display_name hint now (concat "enr_" hex) hashed in
      elim (Option-cases (add_enrollment new hashed now s)) [
        | inl full ↦ rw full (same refl)
        | inr (after, added) ↦ rw added (add-Change new s added)
      ]

  pair-Change :
      (token : String) (s : XdrStore) → IsKeyed s → Change s (pair_enrollment sha256_hex token s).1
  unfolding pair_enrollment
  pair-Change token s keyed =
      elim (Option-cases (get_enrollment_by_token_hash (sha256_hex token) s)) [
        | inl gone ↦ rw gone (same refl)
        | inr (e, f) ↦
            rw f (pair_claimed-Change e.claimed_endpoint_id (sha256_hex token) e s refl f keyed)
      ]

  handle-Change :
      (request : Request) (s : XdrStore) → IsKeyed s → Change s (handle sha256_hex request s)
  unfolding handle claim_endpoint_action complete_endpoint_action create_authorized_endpoint_event
  handle-Change (enroll display_name hint now hex token_hex) s keyed =
      create_enrollment-Change display_name hint now hex token_hex s
  handle-Change (pair token) s keyed = pair-Change token s keyed
  handle-Change (event body authorization hex) s keyed =
      elim (Bool-cases (body.endpoint_id == "")) [
        | inl empty ↦ rw (empty, handle, create_authorized_endpoint_event) (same refl)
        | inr named ↦
            rw (named, handle, create_authorized_endpoint_event)
              (authorized-Change authorization body.endpoint_id
                (λ _. ingest_endpoint_event body hex) s keyed (λ e. ingest-Leaves body hex))
      ]
  handle-Change (create_action ep kind parameters now hex) s keyed =
      same (create_action-Leaves ep kind parameters now hex s)
  handle-Change (claim ep authorization now) s keyed =
      authorized-Change authorization ep
        (λ _ s'. (ok (claim_next_action ep now s').0, (claim_next_action ep now s').1)) s keyed
        (λ e s'. claim_next-enrollments ep now s')
  handle-Change (complete ep id status result authorization now) s keyed =
      authorized-Change authorization ep _ s keyed (λ e s'.
        require_found-enrollments _ _ _
        ∙ update_result-enrollments ep id (status_of_result status) result now s')
  handle-Change (delete_endpoint ep) s keyed = same (delete-Leaves ep s)

  handle-IsKeyed :
      (request : Request) (s : XdrStore) → IsKeyed s → IsKeyed (handle sha256_hex request s)
  handle-IsKeyed request s keyed = Change-IsKeyed s keyed (handle-Change request s keyed)

  -- On a keyed store, a token that is bound to an endpoint stays bound to it, whatever requests
  -- follow.
  pub serve-bound :
      (requests : List Request) (s : XdrStore) (h ep : String) (e : EnrollmentRecord)
      → IsKeyed s
      → get_enrollment_by_token_hash h s ≡ some e
      → e.claimed_endpoint_id ≡ some ep
      → get_enrollment_by_token_hash h (serve sha256_hex requests s) ≡ some e
  unfolding serve
  serve-bound [] s h ep e keyed f bound = f
  serve-bound (request ∷ requests) s h ep e keyed f bound =
      serve-bound requests (handle sha256_hex request s) h ep e (handle-IsKeyed request s keyed)
        (Change-claimed s keyed h ep e (handle-Change request s keyed) f bound) bound

  -- Every sequence of requests keeps a keyed store keyed: an enrollment that is found by its token
  -- is found by its id, which is its payload's.
  pub serve-IsKeyed :
      (requests : List Request) (s : XdrStore) → IsKeyed s → IsKeyed (serve sha256_hex requests s)
  unfolding serve
  serve-IsKeyed [] s keyed = keyed
  serve-IsKeyed (request ∷ requests) s keyed =
      serve-IsKeyed requests (handle sha256_hex request s) (handle-IsKeyed request s keyed)

  accepted :
      (authorization : Option String) (ep : String) (s : XdrStore) {e : EnrollmentRecord}
      {s' : XdrStore}
      → IsKeyed s
      → require_enrollment_token_for_endpoint sha256_hex authorization ep s ≡ (ok e, s')
      → (token : String) × (bearer_token authorization ≡ ok token)
        × Authorized (sha256_hex token) ep s s'
  accepted authorization ep s keyed done =
      elim (require-Outcome sha256_hex authorization ep s keyed) [
        | inl (token, good, a) ↦ (token, good, rw done at a)
        | inr (kept, failed) ↦
            cc (failed, ap (λ (r : Reply EnrollmentRecord × XdrStore). is_ok r.0) done)
      ]

  -- On a keyed store, if a token is accepted for an endpoint, and after any further requests for an endpoint again,
  -- then it is the same endpoint.
  pub one_endpoint :
      (authorization : Option String) (first second : String) (requests : List Request)
      (s mid after : XdrStore) (e e' : EnrollmentRecord)
      → IsKeyed s
      → require_enrollment_token_for_endpoint sha256_hex authorization first s ≡ (ok e, mid)
      → require_enrollment_token_for_endpoint sha256_hex authorization second
          (serve sha256_hex requests mid)
        ≡ (ok e', after)
      → first ≡ second
  one_endpoint authorization first second requests s mid after e e' keyed p q =
      let (token, good, a) = accepted authorization first s keyed p in
      let keyed_mid = Change-IsKeyed s keyed a.change in
      let still =
        serve-bound requests mid (sha256_hex token) first a.enrollment keyed_mid a.found a.bound in
      let served = serve sha256_hex requests mid in
      let keyed_served : IsKeyed served = serve-IsKeyed requests mid keyed_mid in
      let (token', good', b) = accepted authorization second served keyed_served q in
      let kept =
        Change-claimed served keyed_served (sha256_hex token) first a.enrollment b.change still
          a.bound in
      ground (arith, good, good', kept, a.bound, b.found, b.bound)
