-- ===== src/Auth/Sessions/Agreement.antt =====
-- apps/api/app/auth/session_store.py: `get` of the store in memory and of the SQL store compared.
use penguard.Prelude.{
  ℕ, String, List, [], ◌≡◌, refl, ap, Option, none, some, ◌==◌, arith, if◌then◌else◌,
}
use penguard.Prelude.Tables.{select, select-delete, select-update, select-insert}
use penguard.Auth.Sessions.{
  SessionRecord, Entry, entry_key, live, memory_create, memory_get, memory_delete, SessionRow,
  row_key, Cipher, new_row, loaded, visible, revoke, revoked_time, sql_create, sql_get, sql_delete,
}

module _ (cipher : Cipher) where
  -- What both stores have been through, from empty: a login whose session id is new to the table,
  -- or a logout.
  pub data Reached : List Entry → List SessionRow → Type 0 where
    started : Reached [] []
    created :
        {m : List Entry} {t t' : List SessionRow} (session_id : String) (session : SessionRecord)
        → Reached m t
        → sql_create cipher session_id session t ≡ some t'
        → Reached (memory_create session_id session m) t'
    deleted :
        {m : List Entry} {t : List SessionRow} (session_id : Option String) (now : ℕ)
        → Reached m t
        → Reached (memory_delete session_id m) (sql_delete session_id now t)

  loaded-new_row :
      (session_id : String) (session : SessionRecord)
      → loaded cipher (new_row cipher session_id session) ≡ session
  loaded-new_row session_id session =
      ap (λ tokens. record session { tokens = tokens }) (cipher.decrypt-encrypt session.tokens)

  memory_get-create :
      (k j : String) (session : SessionRecord) (now : ℕ) (m : List Entry)
      → memory_get (some j) now (memory_create k session m)
        ≡ (if k == j then live session.expires_at now session else memory_get (some j) now m)
  unfolding memory_get memory_create select
  memory_get-create k j session now m = ground (arith, select-delete entry_key k j m)

  sql_get-create :
      (k j : String) (session : SessionRecord) (now : ℕ) (t : List SessionRow)
      {t' : List SessionRow}
      → sql_create cipher k session t ≡ some t'
      → sql_get cipher (some j) now t'
        ≡ (if k == j then live session.expires_at now session else sql_get cipher (some j) now t)
  unfolding sql_get sql_create visible
  sql_get-create k j session now t {t'} h =
      ground
        (arith, select-insert row_key j (new_row cipher k session) t h, loaded-new_row k session)

  memory_get-delete :
      (k j : String) (now : ℕ) (m : List Entry)
      → memory_get (some j) now (memory_delete (some k) m)
        ≡ (if k == j then none else memory_get (some j) now m)
  unfolding memory_get memory_delete
  memory_get-delete k j now m = ground (arith, select-delete entry_key k j m)

  sql_get-delete :
      (k j : String) (at_time now : ℕ) (t : List SessionRow)
      → sql_get cipher (some j) now (sql_delete (some k) at_time t)
        ≡ (if k == j then none else sql_get cipher (some j) now t)
  unfolding sql_get sql_delete visible revoked_time
  sql_get-delete k j at_time now t =
      ground (arith, select-update row_key k j (revoke at_time) t (λ r. refl))

  started_get : (j : String) (now : ℕ) → memory_get (some j) now [] ≡ sql_get cipher (some j) now []
  unfolding memory_get sql_get select
  started_get j now = refl

  some_id :
      (j : String) (now : ℕ) {m : List Entry} {t : List SessionRow}
      → Reached m t
      → memory_get (some j) now m ≡ sql_get cipher (some j) now t
  unfolding memory_delete sql_delete
  some_id j now started = started_get j now
  some_id j now (created {m} {t} {t'} k session before h) = cc (
    some_id j now before,
    memory_get-create k j session now m,
    sql_get-create k j session now t h,
  )
  some_id j now (deleted none at_time before) = some_id j now before
  some_id j now (deleted {m} {t} (some k) at_time before) =
      cc (some_id j now before, memory_get-delete k j now m, sql_get-delete k j at_time now t)

  -- After the same logins, with session ids that are new, and the same logouts, the store in memory
  -- and the SQL store answer every session id alike at every time.
  pub Reached-get :
      (session_id : Option String) (now : ℕ) {m : List Entry} {t : List SessionRow}
      → Reached m t
      → memory_get session_id now m ≡ sql_get cipher session_id now t
  unfolding memory_get sql_get
  Reached-get none now reached = refl
  Reached-get (some session_id) now reached = some_id session_id now reached
