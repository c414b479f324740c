-- ===== src/Identity/Sessions/Outcome.antt =====
-- The ways in which `rotate_refresh_token` can end.
use foodo.Prelude.{
  ℕ, ◌+◌, ◌≡◌, ◌≢◌, refl, ◌⊎◌, inl, inr, String, true, false, Option, none, some, List, [], ◌∷◌,
  ◌++◌, Result, ok, err, Bool-cases, Option-cases, is_some,
}
use foodo.Identity.Model.{
  RefreshToken, UserSession, refresh_token_replay, Auth, AuthError, invalid_refresh_token,
  token_reuse_detected, no_result_found, integrity,
}
use foodo.Identity.Sessions.{
  IssuedRefreshToken, find_token, update_token, update_session, with_tokens, with_sessions,
  revoke_family, deactivate_user, active_of_token, one, is_usable, add_token, replay, replaced,
  replacement, moved_session, rotate_usable, rotate_refresh_token,
}

module _ (hash : String → String) (raw_token : String) (device_info ip_address : Option String)
    (ttl : ℕ) (token : String) (now : ℕ) (s : Auth) where
  abbrev request : Result AuthError IssuedRefreshToken × Auth
  request = rotate_refresh_token hash raw_token device_info ip_address ttl token now s

  abbrev pub new_token : RefreshToken → RefreshToken
  new_token old = replacement hash old device_info ip_address ttl token now s.next_id

  abbrev pub after_replay : RefreshToken → Auth
  after_replay old = with_sessions (deactivate_user old.user_id) (
      with_tokens (revoke_family old.family_id now) (record s {
        outbox = s.outbox ++ refresh_token_replay old.user_id old.id old.family_id ∷ [];
      }))

  abbrev pub after_rotation : RefreshToken → UserSession → Auth
  after_rotation old sess =
      with_sessions (update_session sess.id (moved_session hash (new_token old) now)) (
        with_tokens (update_token old.id (replaced hash now s.next_id)) (record s {
          rows = record s.rows { tokens = new_token old ∷ s.tokens; next_id = s.next_id + 1 };
        }))

  pub data Outcome : Type 0 where
    -- no use of the token is taken back
    refused : (e : AuthError) → e ≢ token_reuse_detected → request ≡ (err e, s) → Outcome
    replayed :
        (old : RefreshToken) (j : ℕ)
        → find_token (hash raw_token) s.tokens ≡ some old
        → old.replaced_by_token_id ≡ some j
        → request ≡ (err token_reuse_detected, after_replay old)
        → Outcome
    granted :
        (old : RefreshToken) (sess : UserSession)
        → find_token (hash raw_token) s.tokens ≡ some old
        → is_usable now old ≡ true
        → one (active_of_token old.id s.sessions) ≡ ok sess
        → is_some (find_token (hash token) s.tokens) ≡ false
        → request ≡ (
          ok (record {
            raw_token = token;
            refresh_token = new_token old;
            session = moved_session hash (new_token old) now sess;
          }),
          after_rotation old sess,
        )
        → Outcome

  one-cases :
      {A : Type 0} (xs : List A)
      → ((x : A) × (one xs ≡ ok x))
        ⊎ ((e : AuthError) × (e ≢ token_reuse_detected) × (one xs ≡ err e))
  one-cases [] = inr (_, (λ q. cc), refl)
  one-cases (x ∷ []) = inl (x, refl)
  one-cases (x ∷ y ∷ xs) = inr (_, (λ q. cc), refl)

  module _ (old : RefreshToken) (found : find_token (hash raw_token) s.tokens ≡ some old) where
    Outcome-usable : old.replaced_by_token_id ≡ none → is_usable now old ≡ true → Outcome
    unfolding rotate_refresh_token rotate_usable add_token
    Outcome-usable new usable = elim (one-cases (active_of_token old.id s.sessions)) [
      | inl (sess, e) ↦ elim (Bool-cases (is_some (find_token (hash token) s.tokens))) [
        | inl taken ↦ refused integrity (λ q. cc) (rw (found, new, usable, e, taken))
        | inr free ↦ granted old sess found usable e free (rw (found, new, usable, e, free))
      ]
      | inr (x, ne, e) ↦ refused x ne (rw (found, new, usable, e))
    ]

    Outcome-found : Outcome
    unfolding rotate_refresh_token replay
    Outcome-found = elim (Option-cases old.replaced_by_token_id) [
      | inl new ↦ elim (Bool-cases (is_usable now old)) [
        | inl usable ↦ Outcome-usable new usable
        | inr dead ↦ refused invalid_refresh_token (λ q. cc) (rw (found, new, dead))
      ]
      | inr (j, e) ↦ replayed old j found e (rw (found, e))
    ]

  pub outcome : Outcome
  unfolding rotate_refresh_token
  outcome = elim (Option-cases (find_token (hash raw_token) s.tokens)) [
    | inl e ↦ refused invalid_refresh_token (λ q. cc) (rw e)
    | inr (old, e) ↦ Outcome-found old e
  ]

  -- A token that was replaced is taken for a replay.
  pub request-replaced :
      (old : RefreshToken) (j : ℕ)
      → find_token (hash raw_token) s.tokens ≡ some old
      → old.replaced_by_token_id ≡ some j
      → request ≡ (err token_reuse_detected, after_replay old)
  unfolding rotate_refresh_token replay
  request-replaced old j f e = rw (f, e)

  -- A token whose session is gone cannot be rotated.
  pub request-no_session :
      (old : RefreshToken)
      → find_token (hash raw_token) s.tokens ≡ some old
      → old.replaced_by_token_id ≡ none
      → is_usable now old ≡ true
      → active_of_token old.id s.sessions ≡ []
      → request ≡ (err no_result_found, s)
  unfolding rotate_refresh_token rotate_usable
  request-no_session old f new usable e = rw (f, new, usable, e)
