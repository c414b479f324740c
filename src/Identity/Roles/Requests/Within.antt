-- ===== src/Identity/Roles/Requests/Within.antt =====
-- No request adds a code to a role or to a user: the relation, and how it passes through a method.
use mathlib.Core.Path.{subst}
use foodo.Prelude.{
  ℕ, String, Bool, ◌≡◌, refl, sym, ap, ◌∙◌, true, false, ◌&&◌, ◌||◌, List, [], ◌∷◌, ◌==◌, Result,
  ok, err, Exec, continue, modify, ◌>>=◌, arith,
}
use foodo.Identity.Permissions.{RbacError, is_in}
use foodo.Identity.Roles.{
  BusinessRolePermission, UserBusinessRole, Directory, settle, in_transaction,
  role_permission_codes,
}

-- The role has the code.
abbrev pub carries : String → ℕ → List BusinessRolePermission → Bool
carries c i ps = is_in c (role_permission_codes i ps)

-- The user has a role with the code at some business.
abbrev pub holds : String → ℕ → List BusinessRolePermission → List UserBusinessRole → Bool
holds c u ps [] = false
holds c u ps (x ∷ xs) = (x.user_id == u && carries c x.business_role_id ps) || holds c u ps xs

-- From one database to the next, no role and no user gained the code.
pub record IsWithin (c : String) (s t : Directory) : Type 0 where
  pub roles : (i : ℕ) → carries c i t.permissions ≡ true → carries c i s.permissions ≡ true
  pub users :
      (u : ℕ)
      → holds c u t.permissions t.user_roles ≡ true
      → holds c u s.permissions s.user_roles ≡ true

pub record At {A : Type 0} (c : String) (s : Directory) (m : Exec Directory RbacError A)
    : Type 0 where
  pub within : IsWithin c s (m s).1

pub IsWithin-same :
    (c : String) (s t : Directory)
    → t.permissions ≡ s.permissions
    → t.user_roles ≡ s.user_roles
    → IsWithin c s t
IsWithin-same c s t p q = record {
  roles = λ i h. ground arith;
  users =
      λ u h. ap (λ x. holds c u x s.user_roles) (sym p) ∙ ap (holds c u t.permissions) (sym q) ∙ h;
}

pub read_continue :
    {A B : Type 0} (c : String) (s s' : Directory) (r : Result RbacError A)
    (k : A → Exec Directory RbacError B)
    → s' ≡ s
    → ((a : A) → r ≡ ok a → At c s (k a))
    → IsWithin c s (continue r k s').1
read_continue c s s' (ok a) k e l = subst (λ x. IsWithin c s (k a x).1) (sym e) (l a refl).within
read_continue c s s' (err x) k e l =
    IsWithin-same c s s' (ap (λ z. z.permissions) e) (ap (λ z. z.user_roles) e)

-- A step that only reads, and what follows.
pub read :
    {A B : Type 0} (c : String) (s : Directory) (m : Exec Directory RbacError A)
    (k : A → Exec Directory RbacError B)
    → (m s).1 ≡ s
    → ((a : A) → (m s).0 ≡ ok a → At c s (k a))
    → At c s (m >>= k)
read c s m k h l = record { within = read_continue c s (m s).1 (m s).0 k h l }

pub settled :
    {A : Type 0} (c : String) (s : Directory) (p : Result RbacError A × Directory)
    → IsWithin c s p.1
    → IsWithin c s (settle p.0 p.1 s).1
settled c s (ok a, t) h = h
settled c s (err e, t) h = IsWithin-same c s s refl refl

pub transaction :
    {A : Type 0} (c : String) (s : Directory) (m : Exec Directory RbacError A)
    → At c s m
    → At c s (in_transaction m)
unfolding in_transaction
transaction c s m h = record { within = settled c s (m s) h.within }

pub write :
    (c : String) (s : Directory) (f : Directory → Directory)
    → IsWithin c s (f s)
    → At c s (modify f)
write c s f h = record { within = h }

pub IsWithin-trans :
    (c : String) (s t u : Directory) → IsWithin c s t → IsWithin c t u → IsWithin c s u
IsWithin-trans c s t u h k = record {
  roles = λ i g. h.roles i (k.roles i g);
  users = λ v g. h.users v (k.users v g);
}

pub then_continue :
    {A B : Type 0} (c : String) (s t : Directory) (r : Result RbacError A)
    (k : A → Exec Directory RbacError B)
    → IsWithin c s t
    → ((a : A) → At c t (k a))
    → IsWithin c s (continue r k t).1
then_continue c s t (ok a) k h l = IsWithin-trans c s t (k a t).1 h (l a).within
then_continue c s t (err x) k h l = h

-- A step that writes, and what follows.
pub then_at :
    {A B : Type 0} (c : String) (s : Directory) (m : Exec Directory RbacError A)
    (k : A → Exec Directory RbacError B)
    → IsWithin c s (m s).1
    → ((a : A) → At c (m s).1 (k a))
    → At c s (m >>= k)
then_at c s m k h l = record { within = then_continue c s (m s).1 (m s).0 k h l }
