-- ===== src/Auth/Sessions/Revocation.antt =====
-- apps/api/app/auth/session_store.py: revoked sessions of the SQL store.
use penguard.Prelude.{
  ℕ, String, List, [], ◌∷◌, ◌≡◌, refl, Option, none, some, ◌==◌, eq_refl, arith, if◌then◌else◌, inl,
  inr, Option-cases,
}
use penguard.Prelude.Tables.{select, insert, select-update, select-append, insert-some}
use penguard.Auth.Sessions.{
  SessionRecord, SessionRow, row_key, Cipher, new_row, visible, revoke, revoked_time, sql_create,
  sql_get, sql_delete,
}

-- What the routes do to the table.
pub data Operation : Type 0 where
  login : String → SessionRecord → Operation
  logout : Option String → ℕ → Operation

module _ (cipher : Cipher) where
  -- A login that fails leaves the table as it is.
  abbrev perform : Operation → List SessionRow → List SessionRow
  perform (login session_id session) rows = elim (sql_create cipher session_id session rows) [
    | none ↦ rows
    | some rows' ↦ rows'
  ]
  perform (logout session_id now) rows = sql_delete session_id now rows

  abbrev pub performed : List Operation → List SessionRow → List SessionRow
  performed [] rows = rows
  performed (operation ∷ operations) rows = performed operations (perform operation rows)

  -- The row of the session has a time of revocation.
  record IsRevoked (k : String) (rows : List SessionRow) : Type 0 where
    row : SessionRow
    at_time : ℕ
    there : select row_key k rows ≡ some row
    gone : row.revoked_at ≡ some at_time

  perform-IsRevoked :
      (k : String) (operation : Operation) (rows : List SessionRow)
      → IsRevoked k rows
      → IsRevoked k (perform operation rows)
  unfolding sql_create sql_delete revoked_time
  perform-IsRevoked k (login j session) rows r =
      elim (Option-cases (insert row_key (new_row cipher j session) rows)) [
        | inl taken ↦ rw (taken, perform, sql_create) r
        | inr (rows', e) ↦
            let (grown, free) = insert-some row_key (new_row cipher j session) rows e in
            rw (e, perform, sql_create)
              (record {
                row = r.row;
                at_time = r.at_time;
                there = ground (
                  arith,
                  grown,
                  r.there,
                  select-append row_key k (new_row cipher j session) rows,
                );
                gone = r.gone;
              })
      ]
  perform-IsRevoked k (logout none now) rows r = r
  perform-IsRevoked k (logout (some j) now) rows r = record {
    row = if j == k then revoke now r.row else r.row;
    at_time = r.at_time;
    there = ground (arith, r.there, select-update row_key j k (revoke now) rows (λ _. refl));
    gone = ground (arith, r.gone);
  }

  performed-IsRevoked :
      (k : String) (operations : List Operation) (rows : List SessionRow)
      → IsRevoked k rows
      → IsRevoked k (performed operations rows)
  performed-IsRevoked k [] rows r = r
  performed-IsRevoked k (operation ∷ operations) rows r =
      performed-IsRevoked k operations (perform operation rows)
        (perform-IsRevoked k operation rows r)

  get-IsRevoked :
      (k : String) (now : ℕ) (rows : List SessionRow)
      → IsRevoked k rows
      → sql_get cipher (some k) now rows ≡ none
  unfolding sql_get visible
  get-IsRevoked k now rows r = rw (r.there, r.gone, sql_get, visible) refl

  delete-IsRevoked :
      (k : String) (now at_time : ℕ) (rows : List SessionRow) (session : SessionRecord)
      → sql_get cipher (some k) now rows ≡ some session
      → IsRevoked k (sql_delete (some k) at_time rows)
  unfolding sql_get sql_delete visible revoked_time
  delete-IsRevoked k now at_time rows session h = elim (Option-cases (select row_key k rows)) [
    | inl absent ↦ absurd (cc (rw (absent, sql_get) at h))
    | inr (row, e) ↦ elim (Option-cases row.revoked_at) [
      | inr (before, revoked) ↦ absurd (cc (rw (e, revoked, sql_get, visible) at h))
      | inl open_still ↦ record {
        row = revoke at_time row;
        at_time = at_time;
        there =
            ground
              (arith, e, eq_refl k, select-update row_key k k (revoke at_time) rows (λ _. refl));
        gone = rw (open_still, revoked_time) refl;
      }
    ]
  ]

  -- A session that the SQL store gave and that is deleted is never given again, at any time and
  -- whatever logins and logouts follow.
  pub performed-deleted :
      (k : String) (now at_time later : ℕ) (operations : List Operation) (rows : List SessionRow)
      (session : SessionRecord)
      → sql_get cipher (some k) now rows ≡ some session
      → sql_get cipher (some k) later (performed operations (sql_delete (some k) at_time rows))
        ≡ none
  performed-deleted k now at_time later operations rows session h =
      get-IsRevoked k later (performed operations (sql_delete (some k) at_time rows)) (
        performed-IsRevoked k operations (sql_delete (some k) at_time rows)
          (delete-IsRevoked k now at_time rows session h))
