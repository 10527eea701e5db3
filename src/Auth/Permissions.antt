-- ===== src/Auth/Permissions.antt =====
-- apps/api/app/auth/permissions.py: the permission catalog, the effective permissions of a user and
-- the gate of a route. A set of permissions is a list of which only membership counts; the two
-- tables of roles are the lists of their rows.
use penguard.Prelude.{
  String, concat, List, [], ◌∷◌, ◌++◌, ◌≡◌, refl, Bool, ◌&&◌, ◌||◌, not, Option, none, some, ◌==◌,
  map, any, ap₂, ◌∙◌, filter, contains, if◌then◌else◌, Bool-cases, inl, inr, arith,
}
use penguard.Http.{Reply, ok, raised, http_error}

pub record PermissionDef : Type 0 where
  pub slug : String
  pub category : String
  pub label_key : String
  pub description_key : String

-- The keys of every entry are made of its slug.
abbrev permission : String → String → PermissionDef
permission slug category = record {
  slug = slug;
  category = category;
  label_key = concat "settings.roles.permission." (concat slug ".label");
  description_key = concat "settings.roles.permission." (concat slug ".description");
}

abbrev permission_catalog : List PermissionDef
permission_catalog =
    permission "integrations.write" "integrations"
    ∷ permission "audit.read" "audit"
    ∷ permission "roles.manage" "roles"
    ∷ permission "marketplace.install" "marketplace"
    ∷ permission "workspaces.share" "workspaces"
    ∷ permission "workspaces.manage" "workspaces"
    ∷ permission "playbooks.execute" "playbooks"
    ∷ permission "playbooks.manage" "playbooks"
    ∷ permission "tickets.manage" "tickets"
    ∷ permission "policies.manage" "policies"
    ∷ permission "ai.agent.approve" "ai"
    ∷ permission "ai.agent.manage" "ai"
    ∷ []

abbrev pub wildcard : String
wildcard = "*"

abbrev valid_permission_slugs : List String
valid_permission_slugs = map (λ (p : PermissionDef). p.slug) permission_catalog

-- The payload of a session: `user_id` and `id` may be missing.
pub record CurrentUser : Type 0 where
  pub user_id : Option String
  pub id : Option String
  pub roles : List String

pub record UserRole : Type 0 where
  pub user_id : String
  pub role_id : String

pub record RolePermission : Type 0 where
  pub role_id : String
  pub permission : String

pub record Roles : Type 0 where
  pub user_roles : List UserRole
  pub role_permissions : List RolePermission

unfoldable pub has_keycloak_admin_claim : CurrentUser → Bool
has_keycloak_admin_claim user = contains "admin" user.roles

-- a or b: None and "" are false
abbrev first_text : Option String → Option String → Option String
first_text none second = second
first_text (some first) second = if first == "" then second else some first

unfoldable pub current_user_id : CurrentUser → Option String
current_user_id user = first_text user.user_id user.id

abbrev grants : List RolePermission → UserRole → List String
grants rows assigned =
    map (λ (row : RolePermission). row.permission)
      (filter (λ (row : RolePermission). row.role_id == assigned.role_id) rows)

-- The join of the two tables, for the rows of one user.
unfoldable pub joined : String → List RolePermission → List UserRole → List String
joined user_id rows [] = []
joined user_id rows (assigned ∷ rest) =
    if assigned.user_id == user_id
    then grants rows assigned ++ joined user_id rows rest
    else joined user_id rows rest

unfoldable pub effective_permissions : Roles → String → List String
effective_permissions db user_id = joined user_id db.role_permissions db.user_roles

-- effective_permissions(db, user_id) if user_id else set()
unfoldable pub permissions_of : Roles → Option String → List String
permissions_of db none = []
permissions_of db (some user_id) = if user_id == "" then [] else effective_permissions db user_id

unfoldable pub resolve_effective_permissions : Bool → Roles → CurrentUser → List String
resolve_effective_permissions mock_mode db user =
    if has_keycloak_admin_claim user
    then wildcard ∷ []
    else if mock_mode
    then []
    else permissions_of db (current_user_id user)

-- The dependency that `require_permission` builds.
unfoldable pub permission_dep : String → Bool → Roles → CurrentUser → Reply CurrentUser
permission_dep slug mock_mode db user =
    let perms = permissions_of db (current_user_id user) in
    if has_keycloak_admin_claim user
    then ok user
    else if mock_mode
    then raised (http_error 403 "Administrator role required")
    else if contains slug perms || contains wildcard perms
    then ok user
    else raised (http_error 403 (concat "Permission required: " slug))

-- `none` is the ValueError of an unknown slug.
unfoldable pub require_permission : String → Option (Bool → Roles → CurrentUser → Reply CurrentUser)
require_permission slug =
    if not (slug == wildcard) && not (contains slug valid_permission_slugs)
    then none
    else some (permission_dep slug)

-- Whether a set of permissions opens a route.
abbrev pub opens : String → List String → Bool
opens slug perms = contains slug perms || contains wildcard perms

-- The gate of a route lets a user pass, unchanged, exactly if the user's resolved permissions have
-- its slug or the wildcard, in mock mode and with the admin claim too; otherwise it answers 403.
pub permission_dep-resolve :
    (slug : String) (mock_mode : Bool) (db : Roles) (user : CurrentUser)
    → permission_dep slug mock_mode db user ≡ (
        if opens slug (resolve_effective_permissions mock_mode db user)
        then ok user
        else raised (
            http_error 403 (
              if mock_mode
              then "Administrator role required"
              else concat "Permission required: " slug)))
unfolding permission_dep resolve_effective_permissions
permission_dep-resolve slug mock_mode db user = elim (Bool-cases (has_keycloak_admin_claim user)) [
  | inl admin ↦
      rw admin (elim (Bool-cases (wildcard == slug)) [ inl e ↦ rw e refl | inr e ↦ rw e refl ])
  | inr other ↦ elim (Bool-cases mock_mode) [
    | inl mock ↦ rw (other, mock) refl
    | inr real ↦ rw (other, real) refl
  ]
]

any-append :
    {A : Type 0} (p : A → Bool) (xs ys : List A) → any p (xs ++ ys) ≡ (any p xs || any p ys)
any-append p [] ys = refl
any-append p (x ∷ xs) ys = ground (arith, any-append p xs ys)

contains-grants :
    (permission : String) (rows : List RolePermission) (assigned : UserRole)
    → contains permission (grants rows assigned)
      ≡ any
          (λ (row : RolePermission).
            row.role_id == assigned.role_id && row.permission == permission)
          rows
contains-grants permission [] assigned = refl
contains-grants permission (row ∷ rows) assigned =
    ground (arith, contains-grants permission rows assigned)

-- A role of the user that grants the permission.
abbrev pub gives : String → String → List RolePermission → UserRole → Bool
gives permission user_id rows assigned =
    assigned.user_id == user_id
    && any
        (λ (row : RolePermission). row.role_id == assigned.role_id && row.permission == permission)
        rows

contains-joined :
    (permission user_id : String) (rows : List RolePermission) (assignments : List UserRole)
    → contains permission (joined user_id rows assignments)
      ≡ any (gives permission user_id rows) assignments
unfolding joined
contains-joined permission user_id rows [] = refl
contains-joined permission user_id rows (assigned ∷ rest) =
    elim (Bool-cases (assigned.user_id == user_id)) [
      | inl own ↦ rw own (
          any-append (λ y. y == permission) (grants rows assigned) (joined user_id rows rest)
          ∙ ap₂ (λ a b. a || b) (contains-grants permission rows assigned)
              (contains-joined permission user_id rows rest))
      | inr other ↦ rw other (contains-joined permission user_id rows rest)
    ]

-- A user has a permission exactly if one of the roles assigned to the user grants it.
pub effective_permissions-any :
    (permission : String) (db : Roles) (user_id : String)
    → contains permission (effective_permissions db user_id)
      ≡ any (gives permission user_id db.role_permissions) db.user_roles
unfolding effective_permissions
effective_permissions-any permission db user_id =
    contains-joined permission user_id db.role_permissions db.user_roles
