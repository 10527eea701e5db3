-- ===== src/AuthTests.antt =====
-- Runs of the session stores and of the permission gate (apps/api/app/auth) on concrete input, and
-- their theorems there. The cipher leaves the text as it is.
use penguard.Prelude.{
  concat, List, [], ◌∷◌, ◌≡◌, refl, false, none, some, any, contains, if◌then◌else◌,
}
use penguard.Prelude.Tables.{insert, select, taken}
use penguard.Http.{ok, raised, http_error}
use penguard.Auth.Sessions.{
  SessionRecord, SessionRow, Cipher, new_row, is_expired, live, visible, memory_create, memory_get,
  sql_create, sql_get, sql_delete,
}
use penguard.Auth.Sessions.Agreement.{started, created, Reached-get}
use penguard.Auth.Sessions.Revocation.{login, logout, performed, performed-deleted}
use penguard.Auth.Permissions.{
  CurrentUser, Roles, require_permission, permission_dep, permission_dep-resolve, opens, gives,
  resolve_effective_permissions, effective_permissions, effective_permissions-any,
}
use penguard.Prelude.{ℕ, ◌≤◌, String, arith, true}
use penguard.Prelude.Dicts.{dict_get, dict_set}
use penguard.Auth.RateLimit.{RateLimiter, window, allow}
use penguard.Auth.RateLimit.Windows.{allowed_times, hits, allow-bound}
use penguard.Auth.RateLimit.Retry.{attempts_after, allow-again}

abbrev plain : Cipher
plain = record { encrypt = λ text. text; decrypt = λ text. text; decrypt-encrypt = λ text. refl }

abbrev analyst_session : SessionRecord
analyst_session = record {
  user = record { id = "u1"; email = "a@b.c"; display_name = "Ana"; roles = "analyst" ∷ [] };
  tokens = "{}";
  expires_at = some 50;
}

abbrev one_row : List SessionRow
one_row = new_row plain "s1" analyst_session ∷ []

one_row-created : sql_create plain "s1" analyst_session [] ≡ some one_row
unfolding sql_create insert taken
one_row-created = refl

-- At its expiry a session is gone.
expired : sql_get plain (some "s1") 50 one_row ≡ none
unfolding sql_get visible live is_expired select
expired = refl

one_row-live : sql_get plain (some "s1") 49 one_row ≡ some analyst_session
unfolding sql_get visible live is_expired select
one_row-live = refl

Reached-get_example :
    memory_get (some "s1") 49 (memory_create "s1" analyst_session [])
    ≡ sql_get plain (some "s1") 49 one_row
Reached-get_example =
    Reached-get plain (some "s1") 49 (created "s1" analyst_session started one_row-created)

performed-deleted_example :
    sql_get plain (some "s1") 10 (
      performed plain
        (login "s1" analyst_session ∷ logout (some "s2") 9 ∷ [])
        (sql_delete (some "s1") 5 one_row))
    ≡ none
performed-deleted_example =
    performed-deleted plain "s1" 49 5 10 (login "s1" analyst_session ∷ logout (some "s2") 9 ∷ [])
      one_row analyst_session one_row-live

abbrev analyst : CurrentUser
analyst = record { user_id = none; id = some "u1"; roles = "analyst" ∷ [] }

abbrev roles : Roles
roles = record {
  user_roles = record { user_id = "u1"; role_id = "r1" } ∷ [];
  role_permissions =
      record { role_id = "r1"; permission = "audit.read" }
      ∷ record { role_id = "r2"; permission = "*" }
      ∷ [];
}

unknown_slug : require_permission "audit.write" ≡ none
unfolding require_permission
unknown_slug = refl

permission_dep-resolve_example : permission_dep "audit.read" false roles analyst ≡ (
    if opens "audit.read" (resolve_effective_permissions false roles analyst)
    then ok analyst
    else raised (
        http_error 403 (
          if false
          then "Administrator role required"
          else concat "Permission required: " "audit.read")))
permission_dep-resolve_example = permission_dep-resolve "audit.read" false roles analyst

effective_permissions-any_example :
    contains "audit.read" (effective_permissions roles "u1")
    ≡ any (gives "audit.read" "u1" roles.role_permissions) roles.user_roles
effective_permissions-any_example = effective_permissions-any "audit.read" roles "u1"

-- Two attempts in a second.
abbrev limiter : RateLimiter
limiter = record { max_attempts = 2; window_seconds = 1 }

abbrev calls : List (String × ℕ)
calls = ("ana", 10) ∷ ("ana", 20) ∷ ("bob", 30) ∷ ("ana", 40) ∷ ("ana", 1015) ∷ []

third-refused : allowed_times limiter "ana" calls [] ≡ 10 ∷ 20 ∷ 1015 ∷ []
unfolding allowed_times allow dict_get dict_set
third-refused = refl

allow-bound_example : hits 9 (window limiter) (allowed_times limiter "ana" calls []) ≤ 2
allow-bound_example =
    allow-bound limiter "ana" 9 calls
      (omega arith, (omega arith, (omega arith, (omega arith, (omega arith, tt)))))

allow-again_example : (allow limiter "ana" 3000 (attempts_after limiter calls [])).0 ≡ true
allow-again_example =
    allow-again limiter calls "ana" 1500 3000 (omega arith)
      (omega arith, (omega arith, (omega arith, (omega arith, (omega arith, tt))))) (omega arith)
