-- ===== src/Identity/Permissions/Platform.antt =====
-- `compute_platform_role_permissions` of services/identity-service/app/services/permission_resolver.py.
-- A set is a list of which only the members count.
pub mod Granted
use text.Mathlib.Text.{◌==◌ as str_eq}
use foodo.Prelude.{
  ℕ, String, Bool, true, false, not, ◌&&◌, ◌||◌, Option, none, some, List, [], ◌∷◌, ◌==◌,
  if◌then◌else◌, is_empty,
}

pub record PlatformRole : Type 0 where
  pub id : ℕ
  pub name : String
  pub is_deleted : Bool

pub record PlatformRolePermission : Type 0 where
  pub platform_role_id : ℕ
  pub permission_code : String
  pub is_deleted : Bool

pub record UserPlatformRole : Type 0 where
  pub user_id : ℕ
  pub platform_role_id : ℕ
  pub is_deleted : Bool

-- The column that the fallback reads.
pub record PlatformUser : Type 0 where
  pub id : ℕ
  pub user_category : String

pub record PlatformTables : Type 0 where
  pub roles : List PlatformRole
  pub permissions : List PlatformRolePermission
  pub user_roles : List UserPlatformRole
  pub users : List PlatformUser

-- The codes of the roles that count.
unfoldable pub live_codes : (ℕ → Bool) → List PlatformRolePermission → List String
live_codes counts [] = []
live_codes counts (p ∷ ps) =
    let rest = live_codes counts ps in
    if counts p.platform_role_id && not p.is_deleted then p.permission_code ∷ rest else rest

-- The roles of the first select: those that are assigned to the user.
unfoldable pub is_assigned : ℕ → List UserPlatformRole → ℕ → Bool
is_assigned u [] i = false
is_assigned u (x ∷ xs) i =
    (x.platform_role_id == i && (x.user_id == u && not x.is_deleted)) || is_assigned u xs i

-- The roles of the second select: those of a name.
unfoldable pub is_named : String → List PlatformRole → ℕ → Bool
is_named name [] i = false
is_named name (r ∷ rs) i =
    (r.id == i && (str_eq r.name name && not r.is_deleted)) || is_named name rs i

-- `session.get(User, user_id)`
unfoldable pub get_user : ℕ → List PlatformUser → Option PlatformUser
get_user u [] = none
get_user u (x ∷ xs) = if x.id == u then some x else get_user u xs

unfoldable pub category_codes : Option PlatformUser → PlatformTables → List String
unfolding live_codes is_named is_empty
category_codes none t = []
category_codes (some x) t =
    if is_empty x.user_category
    then []
    else live_codes (is_named x.user_category t.roles) t.permissions

unfoldable pub fallback_codes : ℕ → PlatformTables → List String
unfolding category_codes get_user
fallback_codes u t = category_codes (get_user u t.users) t

abbrev pub or_else : List String → List String → List String
or_else [] ys = ys
or_else (x ∷ xs) ys = x ∷ xs

unfoldable pub compute_platform_role_permissions : ℕ → PlatformTables → List String
unfolding live_codes is_assigned fallback_codes
compute_platform_role_permissions u t =
    or_else (live_codes (is_assigned u t.user_roles) t.permissions) (fallback_codes u t)
