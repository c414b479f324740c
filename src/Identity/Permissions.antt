-- ===== src/Identity/Permissions.antt =====
-- Permissions of the identity service: services/identity-service/app/core/permission_codes.py,
-- app/services/permission_resolver.py, app/services/rbac_guard.py and app/deps/permissions.py. A code
-- is its text, a set is a list of which only the members count, and an identifier in a token is the
-- number of its UUID.
pub mod Codes
pub mod Effective
pub mod Platform
use text.Mathlib.Text.{◌==◌ as str_eq}
use foodo.Prelude.{
  ℕ, String, Bool, true, false, not, ◌&&◌, ◌||◌, Option, none, some, List, [], ◌∷◌, ◌++◌,
  if◌then◌else◌, Result, ok, err,
}
use Codes.{permission_codes}

-- The exceptions of the role endpoints: the HTTPException of each check, and ValueError.
pub data RbacError : Type 0 where
  value_error : String → RbacError
  no_context : RbacError
  permission_required : RbacError
  cannot_grant : RbacError
  protected_role : RbacError
  wrong_business : RbacError
  business_not_found : RbacError
  role_not_found : RbacError
  name_taken : RbacError
  invalid_code : RbacError
  not_assigned : RbacError
  no_target : RbacError
  user_not_found : RbacError
  own_role : RbacError
  not_staff : RbacError
  already_assigned : RbacError

-- The claims of a token that the checks read.
pub record Claims : Type 0 where
  pub user_id : ℕ
  pub user_category : String
  pub permissions : List String
  pub active_business_id : Option ℕ
  pub active_store_id : Option ℕ

-- `code in codes`
unfoldable pub is_in : String → List String → Bool
is_in c [] = false
is_in c (x ∷ xs) = str_eq x c || is_in c xs

unfoldable pub coerce_permission_code : String → Result RbacError String
coerce_permission_code c = if is_in c permission_codes then ok c else err (value_error c)

-- `_coerce_or_wildcard`
unfoldable pub coerce_or_wildcard : String → Result RbacError String
coerce_or_wildcard c = if str_eq c "*" then ok "*" else coerce_permission_code c

abbrev pub and_then :
    {A B : Type 0} → Result RbacError A → (A → Result RbacError B) → Result RbacError B
and_then (ok a) f = f a
and_then (err e) f = err e

-- The set comprehensions over a list of codes.
unfoldable pub coerce_all : List String → Result RbacError (List String)
coerce_all [] = ok []
coerce_all (c ∷ cs) =
    and_then (coerce_or_wildcard c) (λ x. and_then (coerce_all cs) (λ xs. ok (x ∷ xs)))

-- The difference of two sets.
unfoldable pub without : List String → List String → List String
without [] denied = []
without (c ∷ cs) denied = if is_in c denied then without cs denied else c ∷ without cs denied

unfoldable pub resolve_effective_permissions :
    List String → List String → List String → List String → Result RbacError (List String)
resolve_effective_permissions business_role location_role grants denies =
    and_then (coerce_all business_role) (λ b. and_then (coerce_all location_role) (λ l.
      and_then (coerce_all grants)
        (λ g. and_then (coerce_all denies) (λ d. ok (without (b ++ l ++ g) d)))))

-- The test of `require_permission`, on a code that was coerced before.
unfoldable pub is_allowed : String → List String → Bool
is_allowed c permissions = is_in c permissions || is_in "*" permissions

unfoldable pub require_permission : String → Claims → Result RbacError Claims
require_permission c claims =
    if is_allowed c claims.permissions then ok claims else err permission_required

unfoldable pub require_business_context : Claims → Result RbacError ℕ
require_business_context claims = elim claims.active_business_id [
  | none ↦ err no_context
  | some b ↦ ok b
]

unfoldable pub require_store_context : Claims → Result RbacError ℕ
require_store_context claims = elim claims.active_store_id [ none ↦ err no_context | some s ↦ ok s ]

unfoldable pub require_business_permission : String → Claims → Result RbacError ℕ
require_business_permission c claims =
    and_then (require_business_context claims)
      (λ b. and_then (require_permission c claims) (λ _. ok b))

unfoldable pub require_store_permission : String → Claims → Result RbacError ℕ
require_store_permission c claims =
    and_then (require_store_context claims)
      (λ s. and_then (require_permission c claims) (λ _. ok s))

-- Is one of the codes, is each of the codes in the set?
unfoldable pub is_any_in : List String → List String → Bool
is_any_in [] permissions = false
is_any_in (c ∷ cs) permissions = is_in c permissions || is_any_in cs permissions

unfoldable pub is_all_in : List String → List String → Bool
is_all_in [] permissions = true
is_all_in (c ∷ cs) permissions = is_in c permissions && is_all_in cs permissions

unfoldable pub require_any_permission : List String → Claims → Result RbacError Claims
require_any_permission cs claims =
    if not (is_in "*" claims.permissions) && not (is_any_in cs claims.permissions)
    then err permission_required
    else ok claims

unfoldable pub require_all_permissions : List String → Claims → Result RbacError Claims
require_all_permissions cs claims =
    if is_in "*" claims.permissions
    then ok claims
    else if is_all_in cs claims.permissions
    then ok claims
    else err permission_required

unfoldable pub require_any_business_permission : List String → Claims → Result RbacError ℕ
require_any_business_permission cs claims =
    and_then (require_business_context claims)
      (λ b. and_then (require_any_permission cs claims) (λ _. ok b))

unfoldable pub require_platform_staff : Claims → Result RbacError Claims
require_platform_staff claims =
    if str_eq claims.user_category "platform_staff" then ok claims else err permission_required

-- "You can only grant or manage what you already hold."
unfoldable pub require_can_grant : Claims → List String → Result RbacError (Unit {0})
require_can_grant claims permissions =
    if is_in "*" claims.permissions
    then ok tt
    else if is_all_in permissions claims.permissions
    then ok tt
    else err cannot_grant
