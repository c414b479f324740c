-- ===== src/Identity/Roles/Staff.antt =====
-- Who has a role: `assign_staff_role` and `revoke_staff_role` of
-- services/identity-service/app/api/v1/endpoints/business_rbac.py. Python's test for white space is a
-- parameter.
use text.Mathlib.Text.{◌==◌ as str_eq}
use Prim.Native.Char.{Char}
use foodo.Prelude.{
  ℕ, suc, String, Bool, false, not, ◌&&◌, ◌||◌, Option, none, some, List, [], ◌∷◌, ◌==◌,
  if◌then◌else◌, is_some, is_empty, lstrip, rstrip, strip, ok, err, Exec, gets, lift, raise_if,
  modify, ◌>>=◌, ◌>>◌,
}
use foodo.Identity.Permissions.{
  RbacError, not_assigned, no_target, user_not_found, own_role, not_staff, already_assigned, Claims,
  require_business_permission, require_can_grant,
}
use foodo.Identity.Roles.{
  User, UserBusinessRole, Directory, in_transaction, get_business_or_404, get_business_role_or_404,
  require_matching_business, reject_protected_role, role_permission_codes,
}

unfoldable pub is_assignment : ℕ → ℕ → ℕ → UserBusinessRole → Bool
is_assignment u b i x = x.user_id == u && x.business_id == b && x.business_role_id == i

unfoldable pub has_assignment : ℕ → ℕ → ℕ → List UserBusinessRole → Bool
has_assignment u b i [] = false
has_assignment u b i (x ∷ xs) = is_assignment u b i x || has_assignment u b i xs

unfoldable pub drop_assignment : ℕ → ℕ → ℕ → List UserBusinessRole → List UserBusinessRole
drop_assignment u b i [] = []
drop_assignment u b i (x ∷ xs) =
    if is_assignment u b i x then drop_assignment u b i xs else x ∷ drop_assignment u b i xs

unfoldable pub revoke_staff_role : ℕ → ℕ → ℕ → Claims → Exec Directory RbacError (Unit {0})
revoke_staff_role b u i claims = do
  token_business ← lift (require_business_permission "user_business_roles.revoke" claims)
  require_matching_business b token_business
  in_transaction (do
    role ← get_business_role_or_404 b i
    reject_protected_role role
    current ← gets (λ s. role_permission_codes role.id s.permissions)
    lift (require_can_grant claims current)
    existing ← gets (λ s. has_assignment u b i s.user_roles)
    raise_if (not existing) not_assigned
    modify (λ s. record s { user_roles = drop_assignment u b i s.user_roles }))

-- The body of the request.
pub record AssignStaffRequest : Type 0 where
  pub business_role_id : ℕ
  pub phone : Option String
  pub email : Option String
  pub user_id : Option ℕ
  pub full_name : Option String

unfoldable pub find_user : (User → Bool) → List User → Option User
find_user f [] = none
find_user f (x ∷ xs) = if f x then some x else find_user f xs

abbrev has_text : String → Option String → Bool
has_text t none = false
has_text t (some x) = str_eq x t

-- By id, or else by phone, or else by email.
unfoldable pub find_target : AssignStaffRequest → Exec Directory RbacError (Option User)
find_target body s = elim body.user_id [
  | some u ↦ (ok (find_user (λ x. x.id == u) s.users), s)
  | none ↦ elim body.phone [
    | some p ↦ (ok (find_user (λ x. has_text p x.phone) s.users), s)
    | none ↦ elim body.email [
      | some m ↦ (ok (find_user (λ x. has_text m x.email) s.users), s)
      | none ↦ (err no_target, s)
    ]
  ]
]

unfoldable pub set_user : User → List User → List User
set_user u [] = []
set_user u (x ∷ xs) = if x.id == u.id then u ∷ set_user u xs else x ∷ set_user u xs

unfoldable pub add_user : User → Directory → Directory
add_user u s = record s { users = u ∷ s.users; next_id = suc s.next_id }

unfoldable pub write_user : User → Directory → Directory
write_user u s = record s { users = set_user u s.users }

unfoldable pub add_assignment : ℕ → ℕ → ℕ → Directory → Directory
add_assignment u b i s = record s {
  user_roles = record { user_id = u; business_id = b; business_role_id = i } ∷ s.user_roles;
}

-- The checks of the role and of the user, and the new row.
unfoldable pub assign_to : ℕ → ℕ → Claims → User → Exec Directory RbacError (Unit {0})
assign_to b i claims target = do
  role ← get_business_role_or_404 b i
  reject_protected_role role
  current ← gets (λ s. role_permission_codes role.id s.permissions)
  lift (require_can_grant claims current)
  raise_if (target.id == claims.user_id) own_role
  raise_if (not (str_eq target.user_category "business_staff")) not_staff
  existing ← gets (λ s. has_assignment target.id b i s.user_roles)
  raise_if existing already_assigned
  modify (add_assignment target.id b i)

module _ (is_space : Char → Bool) where
  abbrev text_of : Option String → String
  text_of none = ""
  text_of (some t) = t

  -- The row of an invited user.
  unfoldable pub invited : ℕ → AssignStaffRequest → User
  unfolding lstrip rstrip
  invited id body = record {
    id = id;
    phone = body.phone;
    email = body.email;
    full_name = strip is_space (text_of body.full_name);
    user_category = "business_staff";
    status = "invited";
  }

  -- Is the name on file blank and the one of the request not empty?
  unfoldable pub needs_name : User → AssignStaffRequest → Bool
  unfolding is_empty lstrip rstrip
  needs_name u body =
      is_empty (strip is_space u.full_name) && not (is_empty (text_of body.full_name))

  abbrev named : User → AssignStaffRequest → User
  named u body = record u { full_name = strip is_space (text_of body.full_name) }

  -- A user who is not found by phone or email is invited; a missing name is filled in.
  unfoldable pub find_or_invite : AssignStaffRequest → Option User → Exec Directory RbacError User
  unfolding lstrip rstrip
  find_or_invite body (some u) s =
      if needs_name u body then (ok (named u body), write_user (named u body) s) else (ok u, s)
  find_or_invite body none s =
      if is_some body.user_id
      then (err user_not_found, s)
      else (ok (invited s.next_id body), add_user (invited s.next_id body) s)

  unfoldable pub assign_staff_role :
      ℕ → AssignStaffRequest → Claims → Exec Directory RbacError (Unit {0})
  assign_staff_role b body claims = do
    token_business ← lift (require_business_permission "user_business_roles.assign" claims)
    in_transaction (do
      get_business_or_404 b
      require_matching_business b token_business
      found ← find_target body
      target ← find_or_invite body found
      assign_to b body.business_role_id claims target)
