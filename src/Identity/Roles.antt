-- ===== src/Identity/Roles.antt =====
-- The roles of a business: services/identity-service/app/api/v1/endpoints/business_rbac.py. The claims
-- are those of the caller's token. `async with db.begin()` commits a request that returns and rolls
-- back one that raises.
pub mod Staff
pub mod Requests
mod Examples
use text.Mathlib.Text.{◌==◌ as str_eq}
use Prim.Native.Char.{Char}
use foodo.Prelude.{
  ℕ, suc, String, Bool, true, false, not, ◌&&◌, ◌||◌, Option, none, some, List, [], ◌∷◌, ◌==◌,
  if◌then◌else◌, is_some, is_empty, strip, Result, ok, err, Exec, pure, gets, lift, or_raise,
  raise_if, modify, ◌>>=◌, ◌>>◌,
}
use foodo.Identity.Permissions.{
  RbacError, protected_role, wrong_business, business_not_found, role_not_found, name_taken,
  invalid_code, not_assigned, no_target, user_not_found, own_role, not_staff, already_assigned,
  Claims, coerce_permission_code, require_business_permission, require_can_grant,
}

pub record BusinessRole : Type 0 where
  pub id : ℕ
  pub business_id : ℕ
  pub name : String
  pub description : Option String
  pub is_protected : Bool

pub record BusinessRolePermission : Type 0 where
  pub business_role_id : ℕ
  pub permission_code : String

pub record UserBusinessRole : Type 0 where
  pub user_id : ℕ
  pub business_id : ℕ
  pub business_role_id : ℕ

-- The columns of a user that the endpoints read or write.
pub record User : Type 0 where
  pub id : ℕ
  pub phone : Option String
  pub email : Option String
  pub full_name : String
  pub user_category : String
  pub status : String

pub record Directory : Type 0 where
  pub businesses : List ℕ
  pub roles : List BusinessRole
  pub permissions : List BusinessRolePermission
  pub users : List User
  pub user_roles : List UserBusinessRole
  pub next_id : ℕ

abbrev pub settle :
    {A : Type 0} → Result RbacError A → Directory → Directory → Result RbacError A × Directory
settle (ok a) t s = (ok a, t)
settle (err e) t s = (err e, s)

-- `async with db.begin()`
unfoldable pub in_transaction :
    {A : Type 0} → Exec Directory RbacError A → Exec Directory RbacError A
in_transaction f s = let (r, t) = f s in settle r t s

unfoldable pub has_business : ℕ → List ℕ → Bool
has_business b [] = false
has_business b (x ∷ xs) = x == b || has_business b xs

unfoldable pub find_role : ℕ → List BusinessRole → Option BusinessRole
find_role i [] = none
find_role i (x ∷ xs) = if x.id == i then some x else find_role i xs

unfoldable pub get_business_or_404 : ℕ → Exec Directory RbacError (Unit {0})
get_business_or_404 b s = raise_if (not (has_business b s.businesses)) business_not_found s

-- `_get_business_role_or_404`
unfoldable pub get_business_role_or_404 : ℕ → ℕ → Exec Directory RbacError BusinessRole
get_business_role_or_404 b i = do
  found ← gets (λ s. find_role i s.roles)
  role ← or_raise found role_not_found
  raise_if (not (role.business_id == b)) role_not_found
  pure role

-- `_require_matching_business`
unfoldable pub require_matching_business : ℕ → ℕ → Exec Directory RbacError (Unit {0})
require_matching_business b token_business = raise_if (not (b == token_business)) wrong_business

-- `reject_protected_role`
unfoldable pub reject_protected_role : BusinessRole → Exec Directory RbacError (Unit {0})
reject_protected_role role = raise_if role.is_protected protected_role

unfoldable pub role_permission_codes : ℕ → List BusinessRolePermission → List String
role_permission_codes i [] = []
role_permission_codes i (x ∷ xs) =
    if x.business_role_id == i
    then x.permission_code ∷ role_permission_codes i xs
    else role_permission_codes i xs

-- Has another role of the business this name?
unfoldable pub is_taken : ℕ → String → Option ℕ → List BusinessRole → Bool
is_taken b name but [] = false
is_taken b name but (x ∷ xs) =
    (x.business_id == b
      && str_eq x.name name
      && not (elim but [ none ↦ false | some i ↦ x.id == i ]))
    || is_taken b name but xs

unfoldable pub insert_role : ℕ → String → Option String → Exec Directory RbacError BusinessRole
insert_role b name description s =
    let role : BusinessRole = record {
      id = s.next_id;
      business_id = b;
      name = name;
      description = description;
      is_protected = false;
    } in
    (ok role, record s { roles = role ∷ s.roles; next_id = suc s.next_id })

unfoldable pub create_business_role :
    ℕ → String → Option String → Claims → Exec Directory RbacError BusinessRole
create_business_role b name description claims = do
  token_business ← lift (require_business_permission "business_roles.create" claims)
  in_transaction (do
    get_business_or_404 b
    require_matching_business b token_business
    taken ← gets (λ s. is_taken b name none s.roles)
    raise_if taken name_taken
    insert_role b name description)

abbrev or_kept : {A : Type 0} → Option A → A → A
or_kept none a = a
or_kept (some b) a = b

unfoldable pub set_role : BusinessRole → List BusinessRole → List BusinessRole
set_role r [] = []
set_role r (x ∷ xs) = if x.id == r.id then r ∷ set_role r xs else x ∷ set_role r xs

-- A new name is looked up among the other roles of the business.
unfoldable pub check_name : ℕ → ℕ → Option String → Exec Directory RbacError (Unit {0})
check_name b i none = pure tt
check_name b i (some name) = do
  taken ← gets (λ s. is_taken b name (some i) s.roles)
  raise_if taken name_taken

unfoldable pub write_role :
    BusinessRole → Option String → Option String → Exec Directory RbacError BusinessRole
write_role role name description s =
    let updated : BusinessRole = record role {
      name = or_kept name role.name;
      description = elim description [ none ↦ role.description | some d ↦ some d ];
    } in
    (ok updated, record s { roles = set_role updated s.roles })

unfoldable pub update_business_role :
    ℕ → ℕ → Option String → Option String → Claims → Exec Directory RbacError BusinessRole
update_business_role b i name description claims = do
  token_business ← lift (require_business_permission "business_roles.update" claims)
  in_transaction (do
    role ← get_business_role_or_404 b i
    require_matching_business b token_business
    raise_if role.is_protected protected_role
    check_name b i name
    write_role role name description)

unfoldable pub has_code : ℕ → String → List BusinessRolePermission → Bool
has_code i c [] = false
has_code i c (x ∷ xs) = (x.business_role_id == i && str_eq x.permission_code c) || has_code i c xs

-- `except ValueError: raise HTTPException(422)`
unfoldable pub valid_code : String → Result RbacError String
valid_code c = elim (coerce_permission_code c) [ ok x ↦ ok x | err e ↦ err invalid_code ]

unfoldable pub add_code : ℕ → String → Directory → Directory
add_code i c s = record s {
  permissions = record { business_role_id = i; permission_code = c } ∷ s.permissions;
}

unfoldable pub assign_role_permission :
    ℕ → ℕ → String → Claims → Exec Directory RbacError (Unit {0})
assign_role_permission b i code claims = do
  token_business ← lift (require_business_permission "business_roles.manage_permissions" claims)
  in_transaction (do
    role ← get_business_role_or_404 b i
    require_matching_business b token_business
    reject_protected_role role
    current ← gets (λ s. role_permission_codes i s.permissions)
    lift (require_can_grant claims current)
    validated ← lift (valid_code code)
    lift (require_can_grant claims (validated ∷ []))
    existing ← gets (λ s. has_code i validated s.permissions)
    modify (if existing then (λ s. s) else add_code i validated))

unfoldable pub drop_code : ℕ → String → List BusinessRolePermission → List BusinessRolePermission
drop_code i c [] = []
drop_code i c (x ∷ xs) =
    if x.business_role_id == i && str_eq x.permission_code c
    then drop_code i c xs
    else x ∷ drop_code i c xs

unfoldable pub remove_role_permission :
    ℕ → ℕ → String → Claims → Exec Directory RbacError (Unit {0})
remove_role_permission b i code claims = do
  token_business ← lift (require_business_permission "business_roles.manage_permissions" claims)
  in_transaction (do
    role ← get_business_role_or_404 b i
    require_matching_business b token_business
    reject_protected_role role
    current ← gets (λ s. role_permission_codes i s.permissions)
    lift (require_can_grant claims current)
    existing ← gets (λ s. has_code i code s.permissions)
    raise_if (not existing) not_assigned
    modify (λ s. record s { permissions = drop_code i code s.permissions }))
