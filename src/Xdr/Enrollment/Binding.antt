-- ===== src/Xdr/Enrollment/Binding.antt =====
-- apps/xdr_rico/app/main.py, `require_enrollment_token_for_endpoint`: how the enrollment table
-- changes.
use mathlib.Core.Option
use penguard.Prelude.{
  String, List, ◌≡◌, refl, ◌⊎◌, ap, false, Option, none, some, ◌==◌, eq_iff, eq_refl, arith,
  if◌then◌else◌, inl, inr, Option-cases, Bool-cases,
}
use penguard.Prelude.Tables.{select, update, insert, select-append, select-update_by, insert-some}
use penguard.Http.{Reply, ok, is_ok, Reply-cases}
use penguard.Xdr.Models.{EnrollmentRecord}
use penguard.Xdr.Store.{
  XdrStore, EnrollmentRow, enrollment_key, hash_key, claim_row, get_enrollment_by_token_hash,
  claim_enrollment_endpoint,
}
use penguard.Xdr.Enrollment.{
  bearer_token, claim_for, bind_claimed, require_enrollment_token_for_endpoint,
}

-- A row that is found by its token hash is found by its id, which is its payload's.
pub record IsKeyed (s : XdrStore) : Type 0 where
  pub found :
      (h : String) (row : EnrollmentRow)
      → select hash_key h s.enrollments ≡ some row
      → (row.payload.id ≡ row.id) × (select enrollment_key row.id s.enrollments ≡ some row)

-- The changes that a request makes: none, the claim of an enrollment that has no endpoint, or a new
-- enrollment.
pub data Change (s s' : XdrStore) : Type 0 where
  same : s'.enrollments ≡ s.enrollments → Change s s'
  claims :
      (h ep : String) (row : EnrollmentRow)
      → select hash_key h s.enrollments ≡ some row
      → row.payload.claimed_endpoint_id ≡ none
      → s'.enrollments ≡ update enrollment_key row.payload.id (claim_row ep) s.enrollments
      → Change s s'
  adds :
      (row : EnrollmentRow)
      → row.payload.id ≡ row.id
      → select hash_key row.token_hash s.enrollments ≡ none
      → insert enrollment_key row s.enrollments ≡ some s'.enrollments
      → Change s s'

-- What an update by id leaves under a token hash.
select-claimed :
    (k ep h : String) (rows : List EnrollmentRow)
    → select hash_key h (update enrollment_key k (claim_row ep) rows)
      ≡ Option.map
          (λ (r : EnrollmentRow). if r.id == k then claim_row ep r else r)
          (select hash_key h rows)
select-claimed k ep h rows =
    select-update_by hash_key enrollment_key k h (claim_row ep) rows (λ r. refl)

select-claimed_id :
    (k ep j : String) (rows : List EnrollmentRow)
    → select enrollment_key j (update enrollment_key k (claim_row ep) rows)
      ≡ Option.map
          (λ (r : EnrollmentRow). if r.id == k then claim_row ep r else r)
          (select enrollment_key j rows)
select-claimed_id k ep j rows =
    select-update_by enrollment_key enrollment_key k j (claim_row ep) rows (λ r. refl)

module _ (s : XdrStore) (keyed : IsKeyed s) where
  claim_keyed :
      (k ep j : String) (row' : EnrollmentRow)
      → select hash_key j (update enrollment_key k (claim_row ep) s.enrollments) ≡ some row'
      → (row'.payload.id ≡ row'.id)
        × (select enrollment_key row'.id (update enrollment_key k (claim_row ep) s.enrollments)
            ≡ some row')
  claim_keyed k ep j row' f = elim (Option-cases (select hash_key j s.enrollments)) [
    | inl gone ↦ cc (f, select-claimed k ep j s.enrollments, gone)
    | inr (old, e) ↦
        let (own, there) = keyed.found j old e in
        let changed : row' ≡ (if old.id == k then claim_row ep old else old) =
          ground (arith, f, e, select-claimed k ep j s.enrollments) in
        elim (Bool-cases (old.id == k)) [
          | inl hit ↦
              rw (changed, hit)
                (own, ground (arith, hit, there, select-claimed_id k ep old.id s.enrollments))
          | inr other ↦
              rw (changed, other)
                (own, ground (arith, other, there, select-claimed_id k ep old.id s.enrollments))
        ]
  ]

  add_keyed :
      (row : EnrollmentRow) (rows : List EnrollmentRow) (j : String) (row' : EnrollmentRow)
      → row.payload.id ≡ row.id
      → insert enrollment_key row s.enrollments ≡ some rows
      → select hash_key j rows ≡ some row'
      → (row'.payload.id ≡ row'.id) × (select enrollment_key row'.id rows ≡ some row')
  add_keyed row rows j row' own e f =
      let (grown, free) = insert-some enrollment_key row s.enrollments e in
      elim (Option-cases (select hash_key j s.enrollments)) [
        | inl gone ↦
            let new : row ≡ row' =
              ground (arith, f, grown, gone, select-append hash_key j row s.enrollments) in
            rw (← new, grown)
              (
                own,
                ground (
                  arith,
                  free,
                  eq_refl row.id,
                  select-append enrollment_key row.id row s.enrollments,
                ),
              )
        | inr (old, seen) ↦
            let kept : old ≡ row' =
              ground (arith, f, grown, seen, select-append hash_key j row s.enrollments) in
            let (own_old, there) = keyed.found j old seen in
            rw (← kept, grown)
              (
                own_old,
                ground (arith, there, select-append enrollment_key old.id row s.enrollments),
              )
      ]

  pub Change-IsKeyed : {s' : XdrStore} → Change s s' → IsKeyed s'
  Change-IsKeyed (same e) = record { found = λ h row f. rw e (keyed.found h row (rw e at f)) }
  Change-IsKeyed (claims h ep row f free e) = record {
    found = λ j row' f'. rw e (claim_keyed row.payload.id ep j row' (rw e at f'));
  }
  Change-IsKeyed {s'} (adds row own new e) = record {
    found = λ j row' f'. add_keyed row s'.enrollments j row' own e f';
  }

  -- A claimed enrollment stays as it is.
  pub Change-claimed :
      {s' : XdrStore} (h ep : String) (e : EnrollmentRecord)
      → Change s s'
      → get_enrollment_by_token_hash h s ≡ some e
      → e.claimed_endpoint_id ≡ some ep
      → get_enrollment_by_token_hash h s' ≡ some e
  unfolding get_enrollment_by_token_hash
  Change-claimed h ep e (same q) f bound = rw q f
  Change-claimed h ep e (claims h' ep' row' f' free q) f bound =
      elim (Option-cases (select hash_key h s.enrollments)) [
        | inl gone ↦ cc (f, gone)
        | inr (old, seen) ↦ ground (
          arith,
          q,
          f,
          bound,
          free,
          seen,
          keyed.found h' row' f',
          keyed.found h old seen,
          select-claimed row'.payload.id ep' h s.enrollments,
          eq_iff old.id row'.payload.id,
        )
      ]
  Change-claimed {s'} h ep e (adds row own new q) f bound =
      let (grown, free) = insert-some enrollment_key row s.enrollments q in
      elim (Option-cases (select hash_key h s.enrollments)) [
        | inl gone ↦ cc (f, gone)
        | inr (old, seen) ↦
            ground (arith, grown, f, seen, select-append hash_key h row s.enrollments)
      ]

-- The changes of the enrollment handlers.
pub claim_for-Change :
    (h ep : String) (e : EnrollmentRecord) (s : XdrStore)
    → get_enrollment_by_token_hash h s ≡ some e
    → e.claimed_endpoint_id ≡ none
    → IsKeyed s
    → Change s (claim_for e ep s).1
      × ((claim_for e ep s).0 ≡ ok (record e { claimed_endpoint_id = some ep }))
      × (get_enrollment_by_token_hash h (claim_for e ep s).1
          ≡ some (record e { claimed_endpoint_id = some ep }))
unfolding claim_for claim_enrollment_endpoint get_enrollment_by_token_hash
claim_for-Change h ep e s f free keyed = elim (Option-cases (select hash_key h s.enrollments)) [
  | inl gone ↦ absurd (cc (f, gone))
  | inr (row, seen) ↦
      let (own, there) = keyed.found h row seen in
      let payload : row.payload ≡ e = ground (arith, f, seen) in
      let by_id : select enrollment_key e.id s.enrollments ≡ some row = cc (own, payload, there) in
      let own_id : e.id ≡ row.id = cc (own, payload) in
      (
        rw (by_id, claim_for, claim_enrollment_endpoint)
            (claims h ep row seen (rw payload free) (rw payload)),
        rw (by_id, claim_for, claim_enrollment_endpoint)
            (ap (λ (p : EnrollmentRecord). ok (record p { claimed_endpoint_id = some ep }))
              payload),
        rw (by_id, claim_for, claim_enrollment_endpoint)
            (ground (
              arith,
              seen,
              payload,
              own_id,
              eq_refl row.id,
              select-claimed e.id ep h s.enrollments,
            )),
      )
]

-- What an authorization for endpoint `ep` by the token hash `h` leaves behind.
pub record Authorized (h ep : String) (s s' : XdrStore) : Type 0 where
  pub change : Change s s'
  pub enrollment : EnrollmentRecord
  pub found : get_enrollment_by_token_hash h s' ≡ some enrollment
  pub bound : enrollment.claimed_endpoint_id ≡ some ep

-- Either the endpoint is authorized, or the reply is an error and nothing was written.
abbrev Outcome : String → String → XdrStore → Reply EnrollmentRecord × XdrStore → Type 0
Outcome h ep s result = Authorized h ep s result.1 ⊎ ((result.1 ≡ s) × (is_ok result.0 ≡ false))

bind_claimed-Outcome :
    (c : Option String) (h ep : String) (e : EnrollmentRecord) (s : XdrStore)
    → e.claimed_endpoint_id ≡ c
    → get_enrollment_by_token_hash h s ≡ some e
    → IsKeyed s
    → Outcome h ep s (bind_claimed c e ep s)
unfolding bind_claimed
bind_claimed-Outcome none h ep e s free f keyed =
    let (change, result, found) = claim_for-Change h ep e s f free keyed in
    inl (record {
      change = change;
      enrollment = record e { claimed_endpoint_id = some ep };
      found = found;
      bound = refl;
    })
bind_claimed-Outcome (some claimed) h ep e s c f keyed = elim (Bool-cases (claimed == ep)) [
  | inl mine ↦ rw mine (
      inl (record {
        change = same refl;
        enrollment = e;
        found = f;
        bound = ground (arith, c, mine, eq_iff claimed ep);
      }))
  | inr other ↦ rw other (inr (refl, refl))
]

module _ (sha256_hex : String → String) where
  -- On a keyed store, an authorization either leaves the token bound to the endpoint, for a bearer
  -- token that was given, or it fails and writes nothing.
  pub require-Outcome :
      (authorization : Option String) (ep : String) (s : XdrStore)
      → IsKeyed s
      → ((token : String) × (bearer_token authorization ≡ ok token)
          × Authorized
              (sha256_hex token)
              ep
              s
              (require_enrollment_token_for_endpoint sha256_hex authorization ep s).1)
        ⊎ (((require_enrollment_token_for_endpoint sha256_hex authorization ep s).1 ≡ s)
            × (is_ok (require_enrollment_token_for_endpoint sha256_hex authorization ep s).0
                ≡ false))
  unfolding require_enrollment_token_for_endpoint
  require-Outcome authorization ep s keyed = elim (Reply-cases (bearer_token authorization)) [
    | inr (e, bad) ↦ inr (rw bad, rw bad)
    | inl (token, good) ↦ elim (Option-cases (get_enrollment_by_token_hash (sha256_hex token) s)) [
      | inl gone ↦ inr (rw (good, gone), rw (good, gone))
      | inr (e, f) ↦
          elim (bind_claimed-Outcome e.claimed_endpoint_id (sha256_hex token) ep e s refl f keyed) [
            | inl done ↦ inl (token, good, rw (good, f) done)
            | inr (kept, failed) ↦ inr (rw (good, f) kept, rw (good, f) failed)
          ]
    ]
  ]
