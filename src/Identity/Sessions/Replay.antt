-- ===== src/Identity/Sessions/Replay.antt =====
-- What the second use of a refresh token does.
use text.Mathlib.Text.{◌==◌ as str_eq}
use text.Mathlib.TextEquality.{eq_iff}
use foodo.Prelude.{
  ℕ, suc, ◌≡◌, ◌≢◌, refl, sym, ap, ◌∙◌, ◌⊎◌, inl, inr, String, true, false, not, ◌&&◌, ◌==◌, Option,
  none, some, List, [], ◌∷◌, ok, err, ==_refl, Bool-cases, is_some, if◌then◌else◌, arith,
}
use foodo.Identity.Model.{RefreshToken, UserSession, Auth, token_reuse_detected, no_result_found}
use foodo.Identity.Sessions.{
  IssuedRefreshToken, find_token, update_token, revoked, revoke_family, deactivate_user, has_token,
  active_of_token, active_of_user, is_usable, get_usable_refresh_token, replaced,
  rotate_refresh_token,
}
use foodo.Identity.Sessions.Outcome.{
  outcome, refused, replayed, granted, after_replay, after_rotation, new_token, request-replaced,
  request-no_session,
}

-- The tokens of a family that are not revoked.
abbrev pub live : ℕ → List RefreshToken → ℕ
live f [] = 0
live f (x ∷ xs) =
    if x.family_id == f && not (is_some x.revoked_at) then suc (live f xs) else live f xs

-- Every session of a token belongs to this user.
abbrev pub AllOwned : ℕ → ℕ → List UserSession → Type 0
AllOwned i u [] = Unit
AllOwned i u (x ∷ xs) =
    ((has_token i x.refresh_token_id ≡ false) ⊎ (x.user_id ≡ u)) × AllOwned i u xs

live-revoke_family : (f now : ℕ) (xs : List RefreshToken) → live f (revoke_family f now xs) ≡ 0
unfolding revoke_family revoked
live-revoke_family f now [] = refl
live-revoke_family f now (x ∷ xs) = ground (arith, live-revoke_family f now xs)

active_of_user-deactivate_user :
    (u : ℕ) (xs : List UserSession) → active_of_user u (deactivate_user u xs) ≡ []
unfolding active_of_user deactivate_user
active_of_user-deactivate_user u [] = refl
active_of_user-deactivate_user u (x ∷ xs) = ground (arith, active_of_user-deactivate_user u xs)

active_of_token-deactivate_user :
    (i u : ℕ) (xs : List UserSession)
    → AllOwned i u xs
    → active_of_token i (deactivate_user u xs) ≡ []
unfolding active_of_token deactivate_user
active_of_token-deactivate_user i u [] h = refl
active_of_token-deactivate_user i u (x ∷ xs) h =
    ground (arith, active_of_token-deactivate_user i u xs h.1)

find_token-revoke_family :
    (f now : ℕ) (h : String) (xs : List RefreshToken) (b : RefreshToken)
    → find_token h xs ≡ some b
    → b.family_id ≢ f
    → find_token h (revoke_family f now xs) ≡ some b
unfolding find_token revoke_family revoked
find_token-revoke_family f now h [] b e ne = absurd (cc)
find_token-revoke_family f now h (x ∷ xs) b e ne =
    ground (arith, find_token-revoke_family f now h xs b)

find_token-update_token :
    (h : String) (i : ℕ) (g : RefreshToken → RefreshToken) (xs : List RefreshToken)
    (b : RefreshToken)
    → ((x : RefreshToken) → (g x).token_hash ≡ x.token_hash)
    → find_token h xs ≡ some b
    → find_token h (update_token i g xs) ≡ some (if b.id == i then g b else b)
unfolding find_token update_token
find_token-update_token h i g [] b k e = absurd (cc)
find_token-update_token h i g (x ∷ xs) b k e =
    ground (arith, k x, find_token-update_token h i g xs b k)

find_token-fresh :
    (h h' : String) (xs : List RefreshToken) (b : RefreshToken)
    → find_token h xs ≡ some b
    → is_some (find_token h' xs) ≡ false
    → str_eq h' h ≡ false
find_token-fresh h h' xs b f e = elim (Bool-cases (str_eq h' h)) [
  | inl same ↦
      let q : h' ≡ h = (eq_iff h' h).0 same in
      let k : find_token h' xs ≡ some b = ap (λ x. find_token x xs) q ∙ f in
      let clash : true ≡ false = sym (ap (λ o. is_some o) k) ∙ e in absurd (cc)
  | inr other ↦ other
]

find_token-skip :
    (h : String) (x : RefreshToken) (xs : List RefreshToken)
    → str_eq x.token_hash h ≡ false
    → find_token h (x ∷ xs) ≡ find_token h xs
unfolding find_token
find_token-skip h x xs e = rw e refl

find-after_rotation :
    (hash : String → String) (raw : String) (d ip : Option String) (ttl : ℕ) (token : String)
    (now : ℕ) (s : Auth) (old : RefreshToken) (sess : UserSession)
    → find_token (hash raw) s.tokens ≡ some old
    → is_some (find_token (hash token) s.tokens) ≡ false
    → find_token (hash raw) (after_rotation hash raw d ip ttl token now s old sess).tokens
      ≡ some (replaced hash now s.next_id old)
find-after_rotation hash raw d ip ttl token now s old sess f free =
    let all = new_token hash raw d ip ttl token now s old ∷ s.tokens in
    let there =
      find_token-skip (hash raw) (new_token hash raw d ip ttl token now s old) s.tokens
        (find_token-fresh (hash raw) (hash token) s.tokens old f free)
      ∙ f in
    find_token-update_token (hash raw) old.id (replaced hash now s.next_id) all old (λ x. refl)
      there
    ∙ simp (==_refl old.id)

module _ (hash : String → String) where
  -- A token that was rotated and is used again is recognised: the request fails, no token of its family
  -- can be used any more, and its user has no active session.
  pub rotate_refresh_token_again :
      (raw_token token token' : String)
      (device_info device_info' ip_address ip_address' : Option String) (ttl ttl' now now' : ℕ)
      (s : Auth) (v : IssuedRefreshToken)
      → (rotate_refresh_token hash raw_token device_info ip_address ttl token now s).0 ≡ ok v
      → let t = (rotate_refresh_token hash raw_token device_info ip_address ttl token now s).1 in
        let u =
          (rotate_refresh_token hash raw_token device_info' ip_address' ttl' token' now' t).1 in
        ((rotate_refresh_token hash raw_token device_info' ip_address' ttl' token' now' t).0
          ≡ err token_reuse_detected)
        × (live v.refresh_token.family_id u.tokens ≡ 0)
        × (active_of_user v.refresh_token.user_id u.sessions ≡ [])
  rotate_refresh_token_again raw token token' d d' ip ip' ttl ttl' now now' s v h =
      elim (outcome hash raw d ip ttl token now s) [
        | refused e ne q ↦ absurd (cc)
        | replayed old j f e q ↦ absurd (cc)
        | granted old sess f usable e free q ↦
            let t = after_rotation hash raw d ip ttl token now s old sess in
            let again = find-after_rotation hash raw d ip ttl token now s old sess f free in
            let r =
              request-replaced hash raw d' ip' ttl' token' now' t (replaced hash now s.next_id old)
                s.next_id again refl in
            let w : new_token hash raw d ip ttl token now s old ≡ v.refresh_token = cc in
            rw (sym w, q, r)
              (
                refl,
                live-revoke_family old.family_id now' t.tokens,
                active_of_user-deactivate_user old.user_id t.sessions,
              )
      ]

  usable-token :
      (raw : String) (now : ℕ) (t : Auth) (x : RefreshToken)
      → find_token (hash raw) t.tokens ≡ some x
      → is_usable now x ≡ true
      → (get_usable_refresh_token hash raw now t).0 ≡ ok x
  unfolding get_usable_refresh_token
  usable-token raw now t x f e = rw (f, get_usable_refresh_token, e)

  -- The replay of a token `old` leaves a token `other` of another family of the same user unrevoked, and
  -- takes its session: `get_usable_refresh_token` still accepts it, and to rotate it raises
  -- NoResultFound, whatever the time, as long as it has not expired.
  pub replay_orphans :
      (raw_old raw_other token token' : String)
      (device_info device_info' ip_address ip_address' : Option String) (ttl ttl' now now' : ℕ)
      (s : Auth) (old other : RefreshToken) (j : ℕ)
      → find_token (hash raw_old) s.tokens ≡ some old
      → old.replaced_by_token_id ≡ some j
      → find_token (hash raw_other) s.tokens ≡ some other
      → other.family_id ≢ old.family_id
      → other.replaced_by_token_id ≡ none
      → is_usable now' other ≡ true
      → AllOwned other.id old.user_id s.sessions
      → let t = (rotate_refresh_token hash raw_old device_info ip_address ttl token now s).1 in
        ((get_usable_refresh_token hash raw_other now' t).0 ≡ ok other)
        × ((rotate_refresh_token hash raw_other device_info' ip_address' ttl' token' now' t).0
            ≡ err no_result_found)
  replay_orphans raw_old raw_other token token' d d' ip ip' ttl ttl' now now' s old other j f e f'
        ne new usable owned =
      let r = request-replaced hash raw_old d ip ttl token now s old j f e in
      let t = after_replay hash raw_old d ip ttl token now s old in
      let kept = find_token-revoke_family old.family_id now (hash raw_other) s.tokens other f' ne in
      rw r (
        usable-token raw_other now' t other kept usable,
        ap (λ x. x.0)
            (request-no_session hash raw_other d' ip' ttl' token' now' t other kept new usable
              (active_of_token-deactivate_user other.id old.user_id s.sessions owned)),
      )
