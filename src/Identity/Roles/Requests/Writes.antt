-- ===== src/Identity/Roles/Requests/Writes.antt =====
-- What the writes of the role endpoints add.
use text.Mathlib.Text.{◌==◌ as str_eq}
use text.Mathlib.TextEquality.{eq_iff}
use Prim.Native.Char.{Char}
use foodo.Prelude.{
  ℕ, String, Bool, ◌≡◌, refl, sym, ap, ◌∙◌, inl, inr, true, false, Option, none, some, is_some,
  List, [], ◌∷◌, if◌then◌else◌, Result, ok, Bool-cases, arith,
}
use foodo.Identity.Permissions.{RbacError, Claims, is_in, is_all_in, require_can_grant}
use foodo.Identity.Roles.{
  User, BusinessRole, BusinessRolePermission, UserBusinessRole, Directory, role_permission_codes,
  insert_role, write_role, add_code, drop_code,
}
use foodo.Identity.Roles.Staff.{
  AssignStaffRequest, add_user, write_user, needs_name, drop_assignment, find_or_invite,
  add_assignment,
}
use foodo.Identity.Roles.Requests.Within.{carries, holds, IsWithin, At, IsWithin-same}

pub insert_role-within :
    (c : String) (s : Directory) (b : ℕ) (name : String) (description : Option String)
    → At c s (insert_role b name description)
unfolding insert_role
insert_role-within c s b name description = record {
  within = IsWithin-same c s (insert_role b name description s).1 refl refl;
}

pub write_role-within :
    (c : String) (s : Directory) (r : BusinessRole) (name description : Option String)
    → At c s (write_role r name description)
unfolding write_role
write_role-within c s r name description = record {
  within = IsWithin-same c s (write_role r name description s).1 refl refl;
}

-- The caller holds neither the code nor the wildcard.
pub record Lacks (c : String) (claims : Claims) : Type 0 where
  pub code : is_in c claims.permissions ≡ false
  pub wildcard : is_in "*" claims.permissions ≡ false

pub is_all_in-lacks :
    (c : String) (ps held : List String)
    → is_in c held ≡ false
    → is_all_in ps held ≡ true
    → is_in c ps ≡ false
unfolding is_in is_all_in
is_all_in-lacks c [] held h a = refl
is_all_in-lacks c (x ∷ xs) held h a = elim (Bool-cases (str_eq x c)) [
  | inl e ↦
      let same : is_in x held ≡ is_in c held = ap (λ z. is_in z held) ((eq_iff x c).0 e) in
      absurd (ground arith)
  | inr e ↦ ground (arith, is_all_in-lacks c xs held)
]

pub granted-Lacks :
    (c : String) (claims : Claims) (ps : List String)
    → Lacks c claims
    → require_can_grant claims ps ≡ ok tt
    → is_in c ps ≡ false
unfolding require_can_grant
granted-Lacks c claims ps l h = elim (Bool-cases (is_all_in ps claims.permissions)) [
  | inl e ↦ is_all_in-lacks c ps claims.permissions l.code e
  | inr e ↦ absurd (ground (arith, l.wildcard))
]

pub holds_mono :
    (c : String) (u : ℕ) (ps qs : List BusinessRolePermission) (xs : List UserBusinessRole)
    → ((i : ℕ) → carries c i qs ≡ true → carries c i ps ≡ true)
    → holds c u qs xs ≡ true
    → holds c u ps xs ≡ true
holds_mono c u ps qs [] f h = h
holds_mono c u ps qs (x ∷ xs) f h = ground (arith, f x.business_role_id, holds_mono c u ps qs xs f)

pub add_code-IsWithin :
    (c : String) (s : Directory) (i : ℕ) (code : String)
    → is_in c (code ∷ []) ≡ false
    → IsWithin c s (add_code i code s)
unfolding add_code is_in role_permission_codes
add_code-IsWithin c s i code h =
    let back : (j : ℕ)
        → carries c j (add_code i code s).permissions ≡ true
        → carries c j s.permissions ≡ true =
      λ j g. ground arith in
    record {
      roles = back;
      users =
          λ u g. holds_mono c u s.permissions (add_code i code s).permissions s.user_roles back g;
    }

pub carries-drop_code :
    (c : String) (j i : ℕ) (code : String) (ps : List BusinessRolePermission)
    → carries c j (drop_code i code ps) ≡ true
    → carries c j ps ≡ true
unfolding drop_code is_in role_permission_codes
carries-drop_code c j i code [] h = h
carries-drop_code c j i code (x ∷ xs) h = ground (arith, carries-drop_code c j i code xs)

pub holds-drop_assignment :
    (c : String) (u v b i : ℕ) (ps : List BusinessRolePermission) (xs : List UserBusinessRole)
    → holds c u ps (drop_assignment v b i xs) ≡ true
    → holds c u ps xs ≡ true
unfolding drop_assignment
holds-drop_assignment c u v b i ps [] h = h
holds-drop_assignment c u v b i ps (x ∷ xs) h =
    ground (arith, holds-drop_assignment c u v b i ps xs)

pub add_if-IsWithin :
    (c : String) (s : Directory) (b : Bool) (i : ℕ) (code : String)
    → is_in c (code ∷ []) ≡ false
    → IsWithin c s ((if b then (λ s. s) else add_code i code) s)
add_if-IsWithin c s true i code h = IsWithin-same c s s refl refl
add_if-IsWithin c s false i code h = add_code-IsWithin c s i code h

pub add_assignment-IsWithin :
    (c : String) (s : Directory) (u b i : ℕ)
    → carries c i s.permissions ≡ false
    → IsWithin c s (add_assignment u b i s)
unfolding add_assignment
add_assignment-IsWithin c s u b i h = record { roles = λ j g. g; users = λ v g. ground arith }

-- The codes that were read are those of the role of the request.
pub granted_role :
    (c : String) (s : Directory) (i j : ℕ) (claims : Claims) (current : List String)
    → Lacks c claims
    → ◌≡◌ {A = Result RbacError (List String)}
        (ok (role_permission_codes j s.permissions))
        (ok current)
    → j ≡ i
    → require_can_grant claims current ≡ ok tt
    → carries c i s.permissions ≡ false
granted_role c s i j claims current l same e g =
    let codes : role_permission_codes j s.permissions ≡ current = cc in
    ap (λ x. carries c x s.permissions) (sym e)
    ∙ ap (is_in c) codes
    ∙ granted-Lacks c claims current l g

pub find_or_invite-IsWithin :
    (is_space : Char → Bool) (c : String) (s : Directory) (body : AssignStaffRequest)
    (found : Option User)
    → IsWithin c s (find_or_invite is_space body found s).1
unfolding find_or_invite add_user write_user
find_or_invite-IsWithin is_space c s body (some u) =
    elim (Bool-cases (needs_name is_space u body)) [
      | inl e ↦ rw e (IsWithin-same c s _ refl refl)
      | inr e ↦ rw e (IsWithin-same c s s refl refl)
    ]
find_or_invite-IsWithin is_space c s body none = elim (Bool-cases (is_some body.user_id)) [
  | inl e ↦ rw e (IsWithin-same c s s refl refl)
  | inr e ↦ rw e (IsWithin-same c s _ refl refl)
]
