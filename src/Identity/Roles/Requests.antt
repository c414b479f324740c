-- ===== src/Identity/Roles/Requests.antt =====
-- Requests to the role endpoints, and what the codes that nobody may grant do.
pub mod Within
pub mod Reads
pub mod Writes
pub mod Escalation
use Prim.Native.Char.{Char}
use foodo.Prelude.{ℕ, String, Bool, Option, List, [], ◌∷◌}
use foodo.Identity.Permissions.{Claims}
use foodo.Identity.Roles.{
  Directory, create_business_role, update_business_role, assign_role_permission,
  remove_role_permission,
}
use foodo.Identity.Roles.Staff.{AssignStaffRequest, assign_staff_role, revoke_staff_role}

pub data RoleRequest : Type 0 where
  create : ℕ → String → Option String → RoleRequest
  update : ℕ → ℕ → Option String → Option String → RoleRequest
  assign_permission : ℕ → ℕ → String → RoleRequest
  remove_permission : ℕ → ℕ → String → RoleRequest
  assign_staff : ℕ → AssignStaffRequest → RoleRequest
  revoke_staff : ℕ → ℕ → ℕ → RoleRequest

module _ (is_space : Char → Bool) where
  -- The database after a request with a token's claims, whatever it answers.
  unfoldable pub serve : Claims → RoleRequest → Directory → Directory
  serve claims (create b name description) s = (create_business_role b name description claims s).1
  serve claims (update b i name description) s =
      (update_business_role b i name description claims s).1
  serve claims (assign_permission b i code) s = (assign_role_permission b i code claims s).1
  serve claims (remove_permission b i code) s = (remove_role_permission b i code claims s).1
  serve claims (assign_staff b body) s = (assign_staff_role is_space b body claims s).1
  serve claims (revoke_staff b u i) s = (revoke_staff_role b u i claims s).1

  unfoldable pub serve_all : List (Claims × RoleRequest) → Directory → Directory
  serve_all [] s = s
  serve_all (r ∷ rs) s = serve_all rs (serve r.0 r.1 s)
