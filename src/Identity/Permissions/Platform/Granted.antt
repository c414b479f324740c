-- ===== src/Identity/Permissions/Platform/Granted.antt =====
-- Who has a code of the platform, said without the joins.
use text.Mathlib.Text.{◌==◌ as str_eq}
use foodo.Prelude.{
  ℕ, String, Bool, true, false, not, ◌&&◌, ◌||◌, ◌≡◌, refl, sym, ap, ◌∙◌, Option, none, some, List,
  [], ◌∷◌, ◌==◌, if◌then◌else◌, is_empty, arith,
}
use foodo.Identity.Permissions.{is_in}
use foodo.Identity.Permissions.Platform.{
  PlatformRole, PlatformRolePermission, UserPlatformRole, PlatformUser, PlatformTables, live_codes,
  is_assigned, is_named, get_user, category_codes, fallback_codes, or_else,
  compute_platform_role_permissions,
}

-- The role has a code that fits.
abbrev pub role_gives : (String → Bool) → ℕ → List PlatformRolePermission → Bool
role_gives fits i [] = false
role_gives fits i (p ∷ ps) =
    (fits p.permission_code && (p.platform_role_id == i && not p.is_deleted))
    || role_gives fits i ps

-- One of the user's roles has a code that fits.
abbrev pub is_granted :
    (String → Bool) → ℕ → List UserPlatformRole → List PlatformRolePermission → Bool
is_granted fits u [] ps = false
is_granted fits u (x ∷ xs) ps =
    ((x.user_id == u && not x.is_deleted) && role_gives fits x.platform_role_id ps)
    || is_granted fits u xs ps

-- A role of the name has a code that fits.
abbrev pub is_offered :
    (String → Bool) → String → List PlatformRole → List PlatformRolePermission → Bool
is_offered fits name [] ps = false
is_offered fits name (r ∷ rs) ps =
    ((str_eq r.name name && not r.is_deleted) && role_gives fits r.id ps)
    || is_offered fits name rs ps

-- What the user's category gives.
abbrev pub is_given : (String → Bool) → Option PlatformUser → PlatformTables → Bool
is_given fits none t = false
is_given fits (some x) t =
    not (is_empty x.user_category) && is_offered fits x.user_category t.roles t.permissions

abbrev any : (String → Bool) → List String → Bool
any fits [] = false
any fits (x ∷ xs) = fits x || any fits xs

is_in-any : (c : String) (xs : List String) → is_in c xs ≡ any (λ x. str_eq x c) xs
unfolding is_in
is_in-any c [] = refl
is_in-any c (x ∷ xs) = ap (λ z. str_eq x c || z) (is_in-any c xs)

in_one :
    (b : Bool) (fits : String → Bool) (x : String) (xs : List String)
    → any fits (if b then x ∷ xs else xs) ≡ (b && fits x) || any fits xs
in_one true fits x xs = refl
in_one false fits x xs = refl

-- One permission and one role more.
one_more :
    (a e m b l s h r : Bool)
    → e ≡ a
    → ((((a && m) || b) && l) && s) || ((m && h) || r)
      ≡ (m && ((s && (e && l)) || h)) || (((b && l) && s) || r)
one_more a e m b l s h r q = ground arith

none_of : (m : Bool) → false ≡ (m && false) || false
none_of true = refl
none_of false = refl

same_role : (i j : ℕ) → (i == j) ≡ (j == i)
same_role i j = ground arith

-- A join with one role more.
any-join_cons :
    (fits : String → Bool) (i : ℕ) (m : Bool) (counts : ℕ → Bool) (ps : List PlatformRolePermission)
    → any fits (live_codes (λ j. (i == j && m) || counts j) ps)
      ≡ (m && role_gives fits i ps) || any fits (live_codes counts ps)
unfolding live_codes
any-join_cons fits i m counts [] = none_of m
any-join_cons fits i m counts (p ∷ ps) =
    in_one (((i == p.platform_role_id && m) || counts p.platform_role_id) && not p.is_deleted) fits
      p.permission_code (live_codes (λ j. (i == j && m) || counts j) ps)
    ∙ ap
        (λ z.
          ((((i == p.platform_role_id && m) || counts p.platform_role_id) && not p.is_deleted)
            && fits p.permission_code)
          || z)
        (any-join_cons fits i m counts ps)
    ∙ one_more (i == p.platform_role_id) (p.platform_role_id == i) m (counts p.platform_role_id)
        (not p.is_deleted) (fits p.permission_code) (role_gives fits i ps)
        (any fits (live_codes counts ps)) (same_role p.platform_role_id i)
    ∙ ap (λ z. (m && role_gives fits i (p ∷ ps)) || z)
        (sym (
          in_one (counts p.platform_role_id && not p.is_deleted) fits p.permission_code
            (live_codes counts ps)))

any-none :
    (fits : String → Bool) (ps : List PlatformRolePermission)
    → any fits (live_codes (λ j. false) ps) ≡ false
unfolding live_codes
any-none fits [] = refl
any-none fits (p ∷ ps) = any-none fits ps

any-assigned :
    (fits : String → Bool) (u : ℕ) (xs : List UserPlatformRole) (ps : List PlatformRolePermission)
    → any fits (live_codes (is_assigned u xs) ps) ≡ is_granted fits u xs ps
unfolding is_assigned
any-assigned fits u [] ps = any-none fits ps
any-assigned fits u (x ∷ xs) ps =
    any-join_cons fits x.platform_role_id (x.user_id == u && not x.is_deleted) (is_assigned u xs) ps
    ∙ ap (λ z. ((x.user_id == u && not x.is_deleted) && role_gives fits x.platform_role_id ps) || z)
        (any-assigned fits u xs ps)

any-named :
    (fits : String → Bool) (name : String) (rs : List PlatformRole)
    (ps : List PlatformRolePermission)
    → any fits (live_codes (is_named name rs) ps) ≡ is_offered fits name rs ps
unfolding is_named
any-named fits name [] ps = any-none fits ps
any-named fits name (r ∷ rs) ps =
    any-join_cons fits r.id (str_eq r.name name && not r.is_deleted) (is_named name rs) ps
    ∙ ap (λ z. ((str_eq r.name name && not r.is_deleted) && role_gives fits r.id ps) || z)
        (any-named fits name rs ps)

any-unless_empty :
    (b : Bool) (fits : String → Bool) (xs : List String)
    → any fits (if b then [] else xs) ≡ not b && any fits xs
any-unless_empty true fits xs = refl
any-unless_empty false fits xs = refl

any-category :
    (fits : String → Bool) (o : Option PlatformUser) (t : PlatformTables)
    → any fits (category_codes o t) ≡ is_given fits o t
unfolding category_codes
any-category fits none t = refl
any-category fits (some x) t =
    any-unless_empty (is_empty x.user_category) fits
      (live_codes (is_named x.user_category t.roles) t.permissions)
    ∙ ap (λ z. not (is_empty x.user_category) && z)
        (any-named fits x.user_category t.roles t.permissions)

any-fallback :
    (fits : String → Bool) (u : ℕ) (t : PlatformTables)
    → any fits (fallback_codes u t) ≡ is_given fits (get_user u t.users) t
unfolding fallback_codes
any-fallback fits u t = any-category fits (get_user u t.users) t

any-or_else :
    (fits : String → Bool) (xs ys : List String)
    → any fits (or_else xs ys) ≡ (if any (λ x. true) xs then any fits xs else any fits ys)
any-or_else fits [] ys = refl
any-or_else fits (x ∷ xs) ys = refl

-- A user has a code of the platform exactly if one of the user's roles has it; but if none of the
-- roles has any code, exactly if a role that is named as the user's category has it. Assignments,
-- codes of roles, and the roles of the second kind count only if they are not deleted.
pub compute_platform_role_permissions-granted :
    (c : String) (u : ℕ) (t : PlatformTables)
    → is_in c (compute_platform_role_permissions u t) ≡ (
        if is_granted (λ x. true) u t.user_roles t.permissions
        then is_granted (λ x. str_eq x c) u t.user_roles t.permissions
        else is_given (λ x. str_eq x c) (get_user u t.users) t)
unfolding compute_platform_role_permissions
compute_platform_role_permissions-granted c u t =
    is_in-any c _
    ∙ any-or_else (λ x. str_eq x c) _ (fallback_codes u t)
    ∙ ap
        (λ z.
          if z
          then any (λ x. str_eq x c) (live_codes (is_assigned u t.user_roles) t.permissions)
          else any (λ x. str_eq x c) (fallback_codes u t))
        (any-assigned (λ x. true) u t.user_roles t.permissions)
    ∙ ap
        (λ z.
          if is_granted (λ x. true) u t.user_roles t.permissions
          then z
          else any (λ x. str_eq x c) (fallback_codes u t))
        (any-assigned (λ x. str_eq x c) u t.user_roles t.permissions)
    ∙ ap
        (λ z.
          if is_granted (λ x. true) u t.user_roles t.permissions
          then is_granted (λ x. str_eq x c) u t.user_roles t.permissions
          else z)
        (any-fallback (λ x. str_eq x c) u t)
