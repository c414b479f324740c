-- ===== src/Identity/Roles/Examples.antt =====
-- Runs of the role endpoints and of the permission checks.
use Prim.Native.Char.{Char, code}
use foodo.Prelude.{Bool, ◌≡◌, refl, true, false, ◌||◌, none, some, List, [], ◌∷◌, ◌==◌, ok, err}
use foodo.Identity.Permissions.{
  Claims, cannot_grant, is_in, coerce_all, coerce_or_wildcard, coerce_permission_code, without,
  resolve_effective_permissions, is_allowed, require_can_grant, is_all_in, require_permission,
  require_business_context, require_business_permission,
}
use foodo.Identity.Permissions.Codes.{permission_codes}
use foodo.Identity.Permissions.Effective.{is_given, is_allowed-resolved}
use foodo.Identity.Roles.{
  Directory, assign_role_permission, role_permission_codes, in_transaction,
  get_business_role_or_404, find_role, require_matching_business, reject_protected_role, valid_code,
  has_code, add_code,
}
use foodo.Identity.Roles.Staff.{AssignStaffRequest}
use foodo.Identity.Roles.Requests.{RoleRequest, assign_permission, assign_staff, serve_all}
use foodo.Identity.Roles.Requests.Within.{IsWithin}
use foodo.Identity.Roles.Requests.Writes.{Lacks}
use foodo.Identity.Roles.Requests.Escalation.{serve_all-IsWithin}

abbrev blank : Char → Bool
blank c = code c == 32

abbrev manager : Claims
manager = record {
  user_id = 3;
  user_category = "business_staff";
  permissions =
      "business_roles.create" ∷ "business_roles.manage_permissions" ∷ "user_business_roles.assign"
      ∷ "pos.view" ∷ [];
  active_business_id = some 9;
  active_store_id = none;
}

abbrev office : Directory
office = record {
  businesses = 9 ∷ [];
  roles =
      record { id = 1; business_id = 9; name = "cashier"; description = none; is_protected = false }
      ∷ [];
  permissions = [];
  users =
      record {
        id = 4;
        phone = some "255";
        email = none;
        full_name = "Asha";
        user_category = "business_staff";
        status = "active";
      }
      ∷ [];
  user_roles = [];
  next_id = 20;
}

abbrev to_cashier : AssignStaffRequest
to_cashier = record {
  business_role_id = 1;
  phone = some "255";
  email = none;
  user_id = none;
  full_name = none;
}

-- The manager tries to add a code that they do not hold, adds one that they hold, and invites.
abbrev morning : List (Claims × RoleRequest)
morning =
    (manager, assign_permission 9 1 "pos.refund")
    ∷ (manager, assign_permission 9 1 "pos.view")
    ∷ (manager, assign_staff 9 to_cashier)
    ∷ []

manager-Lacks : Lacks "pos.refund" manager
unfolding is_in
manager-Lacks = record { code = refl; wildcard = refl }

serve_all-IsWithin_example : IsWithin "pos.refund" office (serve_all blank morning office)
serve_all-IsWithin_example =
    serve_all-IsWithin blank "pos.refund" morning office
      (manager-Lacks, (manager-Lacks, (manager-Lacks, tt)))

own_code-added :
    (assign_role_permission 9 1 "pos.view" manager office).1.permissions
    ≡ record { business_role_id = 1; permission_code = "pos.view" } ∷ []
unfolding assign_role_permission require_business_permission require_business_context
    require_permission is_allowed is_in in_transaction get_business_role_or_404 find_role
    require_matching_business reject_protected_role role_permission_codes require_can_grant
    is_all_in valid_code coerce_permission_code permission_codes has_code add_code
own_code-added = refl

foreign_code-refused : (assign_role_permission 9 1 "pos.refund" manager office).0 ≡ err cannot_grant
unfolding assign_role_permission require_business_permission require_business_context
    require_permission is_allowed is_in in_transaction get_business_role_or_404 find_role
    require_matching_business reject_protected_role role_permission_codes require_can_grant
    is_all_in valid_code coerce_permission_code permission_codes has_code add_code
foreign_code-refused = refl

owner-resolved : resolve_effective_permissions ("*" ∷ []) [] [] ("pos.refund" ∷ []) ≡ ok ("*" ∷ [])
unfolding resolve_effective_permissions coerce_all coerce_or_wildcard coerce_permission_code
    permission_codes is_in without
owner-resolved = refl

-- An owner to whom a code is denied.
is_allowed-resolved_example : is_allowed "pos.refund" ("*" ∷ []) ≡ (
    is_given "pos.refund" ("*" ∷ []) [] [] ("pos.refund" ∷ [])
    || is_given "*" ("*" ∷ []) [] [] ("pos.refund" ∷ []))
is_allowed-resolved_example =
    is_allowed-resolved "pos.refund" ("*" ∷ []) [] [] ("pos.refund" ∷ []) ("*" ∷ []) owner-resolved

denied_code-allowed : is_allowed "pos.refund" ("*" ∷ []) ≡ true
unfolding is_allowed is_in
denied_code-allowed = refl
