-- ===== src/Identity/Roles/Requests/Escalation.antt =====
-- No request gives anyone a permission that its caller does not hold.
use text.Mathlib.Text.{◌==◌ as str_eq}
use Prim.Native.Char.{Char}
use foodo.Prelude.{
  ℕ, String, Bool, refl, not, Option, none, List, [], ◌∷◌, ◌==◌, if◌then◌else◌, gets, lift,
  raise_if,
}
use foodo.Identity.Permissions.{
  name_taken, protected_role, not_assigned, own_role, not_staff, already_assigned, Claims,
  require_business_permission, require_can_grant,
}
use foodo.Identity.Roles.{
  User, Directory, get_business_or_404, get_business_role_or_404, require_matching_business,
  reject_protected_role, role_permission_codes, is_taken, create_business_role,
  update_business_role, check_name, has_code, valid_code, add_code, assign_role_permission,
  drop_code, remove_role_permission,
}
use foodo.Identity.Roles.Staff.{
  AssignStaffRequest, has_assignment, drop_assignment, revoke_staff_role, find_target,
  find_or_invite, assign_to, add_assignment, assign_staff_role,
}
use foodo.Identity.Roles.Requests.{
  RoleRequest, create, update, assign_permission, remove_permission, assign_staff, revoke_staff,
  serve, serve_all,
}
use foodo.Identity.Roles.Requests.Within.{
  IsWithin, At, IsWithin-same, read, transaction, write, IsWithin-trans, then_at,
}
use foodo.Identity.Roles.Requests.Reads.{
  raise_if-reads, get_business_or_404-reads, require_matching_business-reads,
  reject_protected_role-reads, get_business_role_or_404-reads, check_name-reads, role_found,
  find_target-reads,
}
use foodo.Identity.Roles.Requests.Writes.{
  insert_role-within, write_role-within, Lacks, granted-Lacks, holds_mono, carries-drop_code,
  holds-drop_assignment, add_if-IsWithin, add_assignment-IsWithin, granted_role,
  find_or_invite-IsWithin,
}

create_business_role-within :
    (c : String) (s : Directory) (b : ℕ) (name : String) (description : Option String)
    (claims : Claims)
    → At c s (create_business_role b name description claims)
unfolding create_business_role
create_business_role-within c s b name description claims =
    read c s (lift (require_business_permission "business_roles.create" claims)) _ refl (λ t _.
      transaction c s _ (
        read c s (get_business_or_404 b) _ (get_business_or_404-reads b s) (λ _ _.
          read c s (require_matching_business b t) _ (require_matching_business-reads b t s) (λ _ _.
            read c s (gets (λ s. is_taken b name none s.roles)) _ refl (λ taken _.
              read c s (raise_if taken name_taken) _ (raise_if-reads taken name_taken s)
                (λ _ _. insert_role-within c s b name description))))))

update_business_role-within :
    (c : String) (s : Directory) (b i : ℕ) (name description : Option String) (claims : Claims)
    → At c s (update_business_role b i name description claims)
unfolding update_business_role
update_business_role-within c s b i name description claims =
    read c s (lift (require_business_permission "business_roles.update" claims)) _ refl (λ t _.
      transaction c s _ (
        read c s (get_business_role_or_404 b i) _ (get_business_role_or_404-reads b i s) (λ r _.
          read c s (require_matching_business b t) _ (require_matching_business-reads b t s) (λ _ _.
            read c s (raise_if r.is_protected protected_role) _
              (raise_if-reads r.is_protected protected_role s)
              (λ _ _.
                read c s (check_name b i name) _ (check_name-reads b i name s)
                  (λ _ _. write_role-within c s r name description))))))

assign_role_permission-within :
    (c : String) (s : Directory) (b i : ℕ) (code : String) (claims : Claims)
    → Lacks c claims
    → At c s (assign_role_permission b i code claims)
unfolding assign_role_permission
assign_role_permission-within c s b i code claims l =
    read c s (lift (require_business_permission "business_roles.manage_permissions" claims)) _ refl
      (λ t _. transaction c s _ (
        read c s (get_business_role_or_404 b i) _ (get_business_role_or_404-reads b i s) (λ r _.
          read c s (require_matching_business b t) _ (require_matching_business-reads b t s) (λ _ _.
            read c s (reject_protected_role r) _ (reject_protected_role-reads r s) (λ _ _.
              read c s (gets (λ s. role_permission_codes i s.permissions)) _ refl (λ current _.
                read c s (lift (require_can_grant claims current)) _ refl (λ _ _.
                  read c s (lift (valid_code code)) _ refl (λ validated _.
                    read c s (lift (require_can_grant claims (validated ∷ []))) _ refl (λ u g.
                      read c s (gets (λ s. has_code i validated s.permissions)) _ refl
                        (λ existing _.
                          write c s (if existing then (λ s. s) else add_code i validated) (
                            add_if-IsWithin c s existing i validated
                              (granted-Lacks c claims (validated ∷ []) l g))))))))))))

remove_role_permission-within :
    (c : String) (s : Directory) (b i : ℕ) (code : String) (claims : Claims)
    → At c s (remove_role_permission b i code claims)
unfolding remove_role_permission
remove_role_permission-within c s b i code claims =
    read c s (lift (require_business_permission "business_roles.manage_permissions" claims)) _ refl
      (λ t _. transaction c s _ (
        read c s (get_business_role_or_404 b i) _ (get_business_role_or_404-reads b i s) (λ r _.
          read c s (require_matching_business b t) _ (require_matching_business-reads b t s) (λ _ _.
            read c s (reject_protected_role r) _ (reject_protected_role-reads r s) (λ _ _.
              read c s (gets (λ s. role_permission_codes i s.permissions)) _ refl (λ current _.
                read c s (lift (require_can_grant claims current)) _ refl (λ _ _.
                  read c s (gets (λ s. has_code i code s.permissions)) _ refl (λ existing _.
                    read c s (raise_if (not existing) not_assigned) _
                      (raise_if-reads (not existing) not_assigned s)
                      (λ _ _.
                        write c s (λ s. record s { permissions = drop_code i code s.permissions })
                          (record {
                            roles = λ j g. carries-drop_code c j i code s.permissions g;
                            users = λ u g.
                                holds_mono c u s.permissions (drop_code i code s.permissions)
                                  s.user_roles (λ j. carries-drop_code c j i code s.permissions) g;
                          }))))))))))

revoke_staff_role-within :
    (c : String) (s : Directory) (b u i : ℕ) (claims : Claims)
    → At c s (revoke_staff_role b u i claims)
unfolding revoke_staff_role
revoke_staff_role-within c s b u i claims =
    read c s (lift (require_business_permission "user_business_roles.revoke" claims)) _ refl (λ t _.
      read c s (require_matching_business b t) _ (require_matching_business-reads b t s) (λ _ _.
        transaction c s _ (
          read c s (get_business_role_or_404 b i) _ (get_business_role_or_404-reads b i s) (λ r _.
            read c s (reject_protected_role r) _ (reject_protected_role-reads r s) (λ _ _.
              read c s (gets (λ s. role_permission_codes r.id s.permissions)) _ refl (λ current _.
                read c s (lift (require_can_grant claims current)) _ refl (λ _ _.
                  read c s (gets (λ s. has_assignment u b i s.user_roles)) _ refl (λ existing _.
                    read c s (raise_if (not existing) not_assigned) _
                      (raise_if-reads (not existing) not_assigned s)
                      (λ _ _.
                        write c s
                          (λ s. record s { user_roles = drop_assignment u b i s.user_roles })
                          (record {
                            roles = λ j g. g;
                            users =
                                λ v g. holds-drop_assignment c v u b i s.permissions s.user_roles g;
                          }))))))))))

assign_to-within :
    (c : String) (s : Directory) (b i : ℕ) (claims : Claims) (target : User)
    → Lacks c claims
    → At c s (assign_to b i claims target)
unfolding assign_to
assign_to-within c s b i claims target l =
    read c s (get_business_role_or_404 b i) _ (get_business_role_or_404-reads b i s) (λ r found.
      read c s (reject_protected_role r) _ (reject_protected_role-reads r s) (λ _ _.
        read c s (gets (λ s. role_permission_codes r.id s.permissions)) _ refl (λ current same.
          read c s (lift (require_can_grant claims current)) _ refl (λ u g.
            read c s (raise_if (target.id == claims.user_id) own_role) _
              (raise_if-reads _ own_role s)
              (λ _ _.
                read c s (raise_if (not (str_eq target.user_category "business_staff")) not_staff) _
                  (raise_if-reads _ not_staff s)
                  (λ _ _.
                    read c s (gets (λ s. has_assignment target.id b i s.user_roles)) _ refl
                      (λ existing _.
                        read c s (raise_if existing already_assigned) _
                          (raise_if-reads existing already_assigned s)
                          (λ _ _. write c s (add_assignment target.id b i) (
                            add_assignment-IsWithin c s target.id b i (
                              granted_role c s i r.id claims current l same
                                (role_found b i s r found) g))))))))))

assign_staff_role-within :
    (is_space : Char → Bool) (c : String) (s : Directory) (b : ℕ) (body : AssignStaffRequest)
    (claims : Claims)
    → Lacks c claims
    → At c s (assign_staff_role is_space b body claims)
unfolding assign_staff_role
assign_staff_role-within is_space c s b body claims l =
    read c s (lift (require_business_permission "user_business_roles.assign" claims)) _ refl (λ t _.
      transaction c s _ (
        read c s (get_business_or_404 b) _ (get_business_or_404-reads b s) (λ _ _.
          read c s (require_matching_business b t) _ (require_matching_business-reads b t s) (λ _ _.
            read c s (find_target body) _ (find_target-reads body s) (λ found _.
              then_at c s (find_or_invite is_space body found) _
                (find_or_invite-IsWithin is_space c s body found)
                (λ target.
                  assign_to-within c (find_or_invite is_space body found s).1 b
                    body.business_role_id claims target l))))))

serve-IsWithin :
    (is_space : Char → Bool) (c : String) (claims : Claims) (r : RoleRequest) (s : Directory)
    → Lacks c claims
    → IsWithin c s (serve is_space claims r s)
unfolding serve
serve-IsWithin is_space c claims (create b name description) s l =
    (create_business_role-within c s b name description claims).within
serve-IsWithin is_space c claims (update b i name description) s l =
    (update_business_role-within c s b i name description claims).within
serve-IsWithin is_space c claims (assign_permission b i code) s l =
    (assign_role_permission-within c s b i code claims l).within
serve-IsWithin is_space c claims (remove_permission b i code) s l =
    (remove_role_permission-within c s b i code claims).within
serve-IsWithin is_space c claims (assign_staff b body) s l =
    (assign_staff_role-within is_space c s b body claims l).within
serve-IsWithin is_space c claims (revoke_staff b u i) s l =
    (revoke_staff_role-within c s b u i claims).within

abbrev pub AllLack : String → List (Claims × RoleRequest) → Type 0
AllLack c [] = Unit
AllLack c (r ∷ rs) = Lacks c r.0 × AllLack c rs

-- In any sequence of requests whose callers hold neither a code nor the wildcard, whether the requests
-- succeed or not, no role gains the code, and no user gains a role that has the code.
pub serve_all-IsWithin :
    (is_space : Char → Bool) (c : String) (rs : List (Claims × RoleRequest)) (s : Directory)
    → AllLack c rs
    → IsWithin c s (serve_all is_space rs s)
unfolding serve_all
serve_all-IsWithin is_space c [] s l = IsWithin-same c s s refl refl
serve_all-IsWithin is_space c (r ∷ rs) s l =
    IsWithin-trans c s (serve is_space r.0 r.1 s) _ (serve-IsWithin is_space c r.0 r.1 s l.0)
      (serve_all-IsWithin is_space c rs (serve is_space r.0 r.1 s) l.1)
