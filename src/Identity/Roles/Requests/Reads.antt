-- ===== src/Identity/Roles/Requests/Reads.antt =====
-- The checks of the role endpoints read the database and never write it.
use foodo.Prelude.{
  ℕ, String, Bool, ◌≡◌, refl, inl, inr, true, false, Option, none, some, List, [], ◌∷◌, ◌==◌, ok,
  raise_if, Bool-cases, Option-cases, arith,
}
use foodo.Identity.Permissions.{RbacError, name_taken}
use foodo.Identity.Roles.{
  BusinessRole, Directory, find_role, get_business_or_404, get_business_role_or_404,
  require_matching_business, reject_protected_role, is_taken, check_name,
}
use foodo.Identity.Roles.Staff.{AssignStaffRequest, find_target}

pub raise_if-reads : (b : Bool) (e : RbacError) (s : Directory) → (raise_if b e s).1 ≡ s
raise_if-reads true e s = refl
raise_if-reads false e s = refl

pub get_business_or_404-reads : (b : ℕ) (s : Directory) → (get_business_or_404 b s).1 ≡ s
unfolding get_business_or_404
get_business_or_404-reads b s = raise_if-reads _ _ s

pub require_matching_business-reads :
    (b t : ℕ) (s : Directory) → (require_matching_business b t s).1 ≡ s
unfolding require_matching_business
require_matching_business-reads b t s = raise_if-reads _ _ s

pub reject_protected_role-reads :
    (r : BusinessRole) (s : Directory) → (reject_protected_role r s).1 ≡ s
unfolding reject_protected_role
reject_protected_role-reads r s = raise_if-reads _ _ s

pub get_business_role_or_404-reads :
    (b i : ℕ) (s : Directory) → (get_business_role_or_404 b i s).1 ≡ s
unfolding get_business_role_or_404
get_business_role_or_404-reads b i s = elim (Option-cases (find_role i s.roles)) [
  | inl e ↦ rw e refl
  | inr (r, e) ↦ elim (Bool-cases (r.business_id == b)) [
    | inl q ↦ rw (e, q) refl
    | inr q ↦ rw (e, q) refl
  ]
]

pub check_name-reads :
    (b i : ℕ) (name : Option String) (s : Directory) → (check_name b i name s).1 ≡ s
unfolding check_name
check_name-reads b i none s = refl
check_name-reads b i (some name) s = raise_if-reads (is_taken b name (some i) s.roles) name_taken s

pub find_role-id :
    (i : ℕ) (rs : List BusinessRole) (r : BusinessRole) → find_role i rs ≡ some r → r.id ≡ i
unfolding find_role
find_role-id i [] r h = absurd (cc)
find_role-id i (x ∷ xs) r h = ground (arith, find_role-id i xs r)

pub role_found :
    (b i : ℕ) (s : Directory) (r : BusinessRole)
    → (get_business_role_or_404 b i s).0 ≡ ok r
    → r.id ≡ i
unfolding get_business_role_or_404
role_found b i s r h = elim (Option-cases (find_role i s.roles)) [
  | inl e ↦ absurd (ground arith)
  | inr (x, e) ↦ elim (Bool-cases (x.business_id == b)) [
    | inl q ↦ let g : ok x ≡ ok r = rw (e, q) at h in let y = find_role-id i s.roles x e in cc
    | inr q ↦ absurd (ground arith)
  ]
]

pub find_target-reads : (body : AssignStaffRequest) (s : Directory) → (find_target body s).1 ≡ s
unfolding find_target
find_target-reads body s = elim (Option-cases body.user_id) [
  | inr (u, e) ↦ rw e refl
  | inl e ↦ elim (Option-cases body.phone) [
    | inr (p, f) ↦ rw (e, f) refl
    | inl f ↦ elim (Option-cases body.email) [
      | inr (m, g) ↦ rw (e, f, g) refl
      | inl g ↦ rw (e, f, g) refl
    ]
  ]
]
