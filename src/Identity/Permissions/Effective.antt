-- ===== src/Identity/Permissions/Effective.antt =====
-- What the effective permissions allow.
use text.Mathlib.Text.{◌==◌ as str_eq}
use text.Mathlib.TextEquality.{eq_iff}
use foodo.Prelude.{
  String, ◌⊎◌, Bool, ◌≡◌, refl, not, ◌&&◌, ◌||◌, List, [], ◌∷◌, ◌++◌, Result, ok, err, arith,
  Bool-cases, inl, inr, ap, ◌∙◌,
}
use foodo.Identity.Permissions.Codes.{permission_codes}
use foodo.Identity.Permissions.{
  RbacError, value_error, is_in, coerce_all, coerce_or_wildcard, coerce_permission_code, without,
  resolve_effective_permissions, is_allowed,
}

Result-cases :
    {A : Type 0} (r : Result RbacError A) → ((a : A) × (r ≡ ok a)) ⊎ ((e : RbacError) × (r ≡ err e))
Result-cases (ok a) = inl (a, refl)
Result-cases (err e) = inr (e, refl)

is_in-append : (c : String) (xs ys : List String) → is_in c (xs ++ ys) ≡ (is_in c xs || is_in c ys)
unfolding is_in
is_in-append c [] ys = refl
is_in-append c (x ∷ xs) ys = ground (arith, is_in-append c xs ys)

is_in-without :
    (c : String) (xs d : List String) → is_in c (without xs d) ≡ (is_in c xs && not (is_in c d))
unfolding is_in without
is_in-without c [] d = refl
is_in-without c (x ∷ xs) d = elim (Bool-cases (str_eq x c)) [
  | inl e ↦
      let same : is_in x d ≡ is_in c d = ap (λ z. is_in z d) ((eq_iff x c).0 e) in
      ground (arith, is_in-without c xs d)
  | inr e ↦ ground (arith, is_in-without c xs d)
]

coerce_or_wildcard-same : (c x : String) → coerce_or_wildcard c ≡ ok x → x ≡ c
unfolding coerce_or_wildcard coerce_permission_code
coerce_or_wildcard-same c x h = elim (Bool-cases (str_eq c "*")) [
  | inl e ↦ let q : ok "*" ≡ ok x = rw e at h in let s = (eq_iff c "*").0 e in cc
  | inr e ↦ elim (Bool-cases (is_in c permission_codes)) [
    | inl i ↦ let q : ok c ≡ ok x = rw (e, i) at h in cc
    | inr i ↦ let q : err (value_error c) ≡ ok x = rw (e, i) at h in absurd (cc)
  ]
]

coerce_all-same : (xs ys : List String) → coerce_all xs ≡ ok ys → ys ≡ xs
unfolding coerce_all
coerce_all-same [] ys h = cc
coerce_all-same (x ∷ xs) ys h = elim (Result-cases (coerce_or_wildcard x)) [
  | inl (y, p) ↦ elim (Result-cases (coerce_all xs)) [
    | inl (zs, q) ↦
        let r : ok (y ∷ zs) ≡ ok ys = rw (p, q) at h in
        let a = coerce_or_wildcard-same x y p in let b = coerce_all-same xs zs q in cc
    | inr (e, q) ↦ let r : err e ≡ ok ys = rw (p, q) at h in absurd (cc)
  ]
  | inr (e, p) ↦ let r : err e ≡ ok ys = rw p at h in absurd (cc)
]

-- Some role or grant gives the code, and no deny takes it.
abbrev pub is_given : String → List String → List String → List String → List String → Bool
is_given c business_role location_role grants denies =
    (is_in c business_role || is_in c location_role || is_in c grants) && not (is_in c denies)

resolved :
    (b l g d p : List String)
    → resolve_effective_permissions b l g d ≡ ok p
    → p ≡ without (b ++ l ++ g) d
unfolding resolve_effective_permissions
resolved b l g d p h = elim (Result-cases (coerce_all b)) [
  | inr (e, q) ↦ let r : err e ≡ ok p = rw q at h in absurd (cc)
  | inl (b', qb) ↦ elim (Result-cases (coerce_all l)) [
    | inr (e, q) ↦ let r : err e ≡ ok p = rw (qb, q) at h in absurd (cc)
    | inl (l', ql) ↦ elim (Result-cases (coerce_all g)) [
      | inr (e, q) ↦ let r : err e ≡ ok p = rw (qb, ql, q) at h in absurd (cc)
      | inl (g', qg) ↦ elim (Result-cases (coerce_all d)) [
        | inr (e, q) ↦ let r : err e ≡ ok p = rw (qb, ql, qg, q) at h in absurd (cc)
        | inl (d', qd) ↦
            let r : ok (without (b' ++ l' ++ g') d') ≡ ok p = rw (qb, ql, qg, qd) at h in
            let sb = coerce_all-same b b' qb in
            let sl = coerce_all-same l l' ql in
            let sg = coerce_all-same g g' qg in let sd = coerce_all-same d d' qd in cc
      ]
    ]
  ]
]

is_in-resolved :
    (c : String) (b l g d p : List String)
    → resolve_effective_permissions b l g d ≡ ok p
    → is_in c p ≡ is_given c b l g d
is_in-resolved c b l g d p h =
    ap (is_in c) (resolved b l g d p h)
    ∙ is_in-without c (b ++ l ++ g) d
    ∙ ap (λ x. x && not (is_in c d))
        (is_in-append c (b ++ l) g ∙ ap (λ x. x || is_in c g) (is_in-append c b l))

-- A code is allowed exactly when some role or grant gives it and no deny takes it, or when some role
-- or grant gives the wildcard and no deny takes the wildcard.
pub is_allowed-resolved :
    (c : String) (b l g d p : List String)
    → resolve_effective_permissions b l g d ≡ ok p
    → is_allowed c p ≡ (is_given c b l g d || is_given "*" b l g d)
unfolding is_allowed
is_allowed-resolved c b l g d p h =
    ap (λ x. x || is_in "*" p) (is_in-resolved c b l g d p h)
    ∙ ap (λ x. is_given c b l g d || x) (is_in-resolved "*" b l g d p h)
