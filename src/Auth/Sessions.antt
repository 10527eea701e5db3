-- ===== src/Auth/Sessions.antt =====
-- apps/api/app/auth/session_store.py: the two session stores. The user of a session is the record of
-- the four entries that the SQL store keeps, and its tokens are their JSON text. `TokenCipher`
-- (Fernet, a third-party package, over that text) is the pair of its functions; the session id that the token factory makes and the clock are arguments.
pub mod Agreement
pub mod Revocation
use penguard.Prelude.{
  ℕ, String, List, [], ◌∷◌, Bool, true, false, ◌||◌, Option, none, some, leb, if◌then◌else◌, ◌==◌,
  ◌≡◌,
}
use penguard.Prelude.Tables.{select, update, delete, insert}

pub record User : Type 0 where
  pub id : String
  pub email : String
  pub display_name : String
  pub roles : List String

pub record SessionRecord : Type 0 where
  pub user : User
  pub tokens : String
  pub expires_at : Option ℕ

unfoldable pub is_expired : Option ℕ → ℕ → Bool
is_expired none now = false
is_expired (some expires_at) now = leb expires_at now

-- An entry of `InMemorySessionStore.sessions`.
pub record Entry : Type 0 where
  pub session_id : String
  pub session : SessionRecord

abbrev pub entry_key : Entry → String
entry_key entry = entry.session_id

unfoldable pub live : Option ℕ → ℕ → SessionRecord → Option SessionRecord
live expires_at now session = if is_expired expires_at now then none else some session

-- self.sessions[session_id] = ...: an entry that was there is replaced
unfoldable pub memory_create : String → SessionRecord → List Entry → List Entry
memory_create session_id session sessions =
    record { session_id = session_id; session = session } ∷ delete entry_key session_id sessions

unfoldable pub memory_get : Option String → ℕ → List Entry → Option SessionRecord
unfolding live
memory_get none now sessions = none
memory_get (some session_id) now sessions = elim (select entry_key session_id sessions) [
  | none ↦ none
  | some entry ↦ live entry.session.expires_at now entry.session
]

unfoldable pub memory_delete : Option String → List Entry → List Entry
memory_delete none sessions = sessions
memory_delete (some session_id) sessions = delete entry_key session_id sessions

-- AuthSessionModel
pub record SessionRow : Type 0 where
  pub id : String
  pub user_id : String
  pub email : String
  pub display_name : String
  pub roles : List String
  pub token_blob : String
  pub expires_at : Option ℕ
  pub revoked_at : Option ℕ

abbrev pub row_key : SessionRow → String
row_key row = row.id

-- TokenCipher: what was encrypted is decrypted.
pub record Cipher : Type 0 where
  pub encrypt : String → String
  pub decrypt : String → String
  pub decrypt-encrypt : (tokens : String) → decrypt (encrypt tokens) ≡ tokens

-- A session that is revoked keeps its time.
unfoldable pub revoked_time : ℕ → Option ℕ → Option ℕ
revoked_time now none = some now
revoked_time now (some before) = some before

abbrev pub revoke : ℕ → SessionRow → SessionRow
revoke now row = record row { revoked_at = revoked_time now row.revoked_at }

module _ (cipher : Cipher) where
  abbrev pub new_row : String → SessionRecord → SessionRow
  new_row session_id session = record {
    id = session_id;
    user_id = session.user.id;
    email = session.user.email;
    display_name = session.user.display_name;
    roles = session.user.roles;
    token_blob = cipher.encrypt session.tokens;
    expires_at = session.expires_at;
    revoked_at = none;
  }

  abbrev pub loaded : SessionRow → SessionRecord
  loaded row = record {
    user = record {
      id = row.user_id;
      email = row.email;
      display_name = row.display_name;
      roles = row.roles;
    };
    tokens = cipher.decrypt row.token_blob;
    expires_at = row.expires_at;
  }

  -- `none` is the integrity error of an id that is taken.
  unfoldable pub sql_create : String → SessionRecord → List SessionRow → Option (List SessionRow)
  sql_create session_id session rows = insert row_key (new_row session_id session) rows

  -- A row that is not revoked, unless it is expired.
  unfoldable pub visible : Option ℕ → ℕ → SessionRow → Option SessionRecord
  unfolding live
  visible none now row = live row.expires_at now (loaded row)
  visible (some revoked_at) now row = none

  unfoldable pub sql_get : Option String → ℕ → List SessionRow → Option SessionRecord
  unfolding visible
  sql_get none now rows = none
  sql_get (some session_id) now rows = elim (select row_key session_id rows) [
    | none ↦ none
    | some row ↦ visible row.revoked_at now row
  ]

unfoldable pub sql_delete : Option String → ℕ → List SessionRow → List SessionRow
sql_delete none now rows = rows
sql_delete (some session_id) now rows = update row_key session_id (revoke now) rows
