-- ===== src/Identity/Sessions.antt =====
-- services/identity-service/app/services/session_service.py.
pub mod Outcome
pub mod Replay
pub mod Linear
use text.Mathlib.Text.{◌==◌ as str_eq}
use foodo.Prelude.{
  ℕ, ◌+◌, leb, ltb, String, Bool, true, false, not, ◌&&◌, ◌||◌, Option, none, some, List, [], ◌∷◌,
  ◌++◌, map, ◌==◌, if◌then◌else◌, is_some, Exec, Result, ok, err, pure, raise, raise_if, or_raise,
  gets, modify, ◌>>=◌, ◌>>◌,
}
use foodo.Identity.Model.{
  RefreshToken, UserSession, AuthTables, AuthMessage, refresh_token_replay, Auth, AuthError,
  invalid_refresh_token, token_reuse_detected, no_result_found, multiple_results_found, integrity,
}

pub record IssuedRefreshToken : Type 0 where
  pub raw_token : String
  pub refresh_token : RefreshToken
  pub session : UserSession

-- `session.begin()`: an exception takes the rows back. What was published stays so.
abbrev pub leave : {A : Type 0} → Auth → Result AuthError A → Auth → Result AuthError A × Auth
leave before (ok a) t = (ok a, t)
leave before (err e) t = (err e, record t { rows = before.rows })

abbrev pub transaction : {A : Type 0} → Exec Auth AuthError A → Exec Auth AuthError A
transaction m s = let (r, t) = m s in leave s r t

unfoldable pub find_token : String → List RefreshToken → Option RefreshToken
find_token h [] = none
find_token h (x ∷ xs) = if str_eq x.token_hash h then some x else find_token h xs

unfoldable pub get_token : ℕ → List RefreshToken → Option RefreshToken
get_token i [] = none
get_token i (x ∷ xs) = if x.id == i then some x else get_token i xs

unfoldable pub get_session : ℕ → List UserSession → Option UserSession
get_session i [] = none
get_session i (x ∷ xs) = if x.id == i then some x else get_session i xs

-- The flush of a changed row.
unfoldable pub update_token :
    ℕ → (RefreshToken → RefreshToken) → List RefreshToken → List RefreshToken
update_token i g [] = []
update_token i g (x ∷ xs) = (if x.id == i then g x else x) ∷ update_token i g xs

unfoldable pub update_session :
    ℕ → (UserSession → UserSession) → List UserSession → List UserSession
update_session i g [] = []
update_session i g (x ∷ xs) = (if x.id == i then g x else x) ∷ update_session i g xs

abbrev pub with_tokens : (List RefreshToken → List RefreshToken) → Auth → Auth
with_tokens f s = record s { rows = record s.rows { tokens = f s.tokens } }

abbrev pub with_sessions : (List UserSession → List UserSession) → Auth → Auth
with_sessions f s = record s { rows = record s.rows { sessions = f s.sessions } }

-- `revoked_at or now`
unfoldable pub revoked : ℕ → RefreshToken → RefreshToken
revoked now x = record x { revoked_at = elim x.revoked_at [ none ↦ some now | some t ↦ some t ] }

abbrev pub deactivated : UserSession → UserSession
deactivated x = record x { is_active = false }

-- The two loops over a replayed token's family and its user's active sessions.
unfoldable pub revoke_family : ℕ → ℕ → List RefreshToken → List RefreshToken
unfolding revoked
revoke_family family now [] = []
revoke_family family now (x ∷ xs) =
    (if x.family_id == family then revoked now x else x) ∷ revoke_family family now xs

unfoldable pub deactivate_user : ℕ → List UserSession → List UserSession
deactivate_user user [] = []
deactivate_user user (x ∷ xs) =
    (if x.user_id == user && x.is_active then deactivated x else x) ∷ deactivate_user user xs

-- The sessions of a token, the active ones alone or all.
unfoldable pub has_token : ℕ → Option ℕ → Bool
has_token i none = false
has_token i (some j) = j == i

unfoldable pub active_of_token : ℕ → List UserSession → List UserSession
unfolding has_token
active_of_token i [] = []
active_of_token i (x ∷ xs) =
    if has_token i x.refresh_token_id && x.is_active
    then x ∷ active_of_token i xs
    else active_of_token i xs

unfoldable pub all_of_token : ℕ → List UserSession → List UserSession
unfolding has_token
all_of_token i [] = []
all_of_token i (x ∷ xs) =
    if has_token i x.refresh_token_id then x ∷ all_of_token i xs else all_of_token i xs

unfoldable pub active_of_user : ℕ → List UserSession → List UserSession
active_of_user u [] = []
active_of_user u (x ∷ xs) =
    if x.user_id == u && x.is_active then x ∷ active_of_user u xs else active_of_user u xs

-- `one` and `one_or_none` of a result.
abbrev pub one : {A : Type 0} → List A → Result AuthError A
one [] = err no_result_found
one (x ∷ []) = ok x
one (x ∷ y ∷ xs) = err multiple_results_found

abbrev pub one_or_none : {A : Type 0} → List A → Result AuthError (Option A)
one_or_none [] = ok none
one_or_none (x ∷ []) = ok (some x)
one_or_none (x ∷ y ∷ xs) = err multiple_results_found

-- `a or b` for texts: the empty text counts as missing.
unfoldable pub or_kept : Option String → Option String → Option String
or_kept none old = old
or_kept (some t) old = if str_eq t "" then old else some t

unfoldable pub is_usable : ℕ → RefreshToken → Bool
is_usable now x = not (is_some x.revoked_at) && ltb now x.expires_at

-- The token hash is a parameter.
module _ (hash : String → String) where
  -- A new token's hash is unique in the table.
  unfoldable pub add_token : RefreshToken → Exec Auth AuthError (Unit {0})
  unfolding find_token
  add_token x s = if is_some (find_token x.token_hash s.tokens) then (err integrity, s) else (
    ok tt,
    record s { rows = record s.rows { tokens = x ∷ s.tokens; next_id = s.next_id + 1 } },
  )

  abbrev pub first_token : ℕ → Option String → Option String → ℕ → String → ℕ → ℕ → RefreshToken
  first_token user_id device_info ip_address ttl token now id = record {
    id = id;
    user_id = user_id;
    token_hash = hash token;
    device_info = device_info;
    ip_address = ip_address;
    expires_at = now + ttl;
    revoked_at = none;
    family_id = id;
    previous_token_id = none;
    replaced_by_token_id = none;
  }

  abbrev pub first_session : ℕ → Option String → Option String → ℕ → ℕ → ℕ → UserSession
  first_session user_id device_info ip_address ttl now id = record {
    id = id;
    user_id = user_id;
    refresh_token_id = some id;
    device_info = device_info;
    ip_address = ip_address;
    last_activity_at = now;
    expires_at = now + ttl;
    is_active = true;
  }

  -- One fresh UUID serves as the id of the token, of its family and of its session: they are ids of
  -- different tables.
  unfoldable pub issue_login_session :
      ℕ → Option String → Option String → ℕ → String → ℕ → Exec Auth AuthError IssuedRefreshToken
  unfolding add_token
  issue_login_session user_id device_info ip_address ttl token now = transaction (do
    id ← gets (λ s. s.next_id)
    let refresh_token = first_token user_id device_info ip_address ttl token now id
    let user_session = first_session user_id device_info ip_address ttl now id
    add_token refresh_token
    modify (with_sessions (λ xs. user_session ∷ xs))
    pure (record { raw_token = token; refresh_token = refresh_token; session = user_session }))

  unfoldable pub get_usable_refresh_token : String → ℕ → Exec Auth AuthError RefreshToken
  unfolding find_token is_usable
  get_usable_refresh_token raw_token now s = elim (find_token (hash raw_token) s.tokens) [
    | none ↦ (err invalid_refresh_token, s)
    | some x ↦ if is_usable now x then (ok x, s) else (err invalid_refresh_token, s)
  ]

  -- The branch of a token that was rotated before. The exception comes after the commit.
  unfoldable pub replay : RefreshToken → ℕ → Exec Auth AuthError (Option IssuedRefreshToken)
  unfolding revoke_family deactivate_user
  replay old now = do
    modify (λ s. record s {
      outbox = s.outbox ++ refresh_token_replay old.user_id old.id old.family_id ∷ [];
    })
    modify (with_tokens (revoke_family old.family_id now))
    modify (with_sessions (deactivate_user old.user_id))
    pure none

  abbrev pub replaced : ℕ → ℕ → RefreshToken → RefreshToken
  replaced now id x = record x { revoked_at = some now; replaced_by_token_id = some id }

  abbrev pub replacement :
      RefreshToken → Option String → Option String → ℕ → String → ℕ → ℕ → RefreshToken
  replacement old device_info ip_address ttl token now id = record {
    id = id;
    user_id = old.user_id;
    token_hash = hash token;
    device_info = or_kept device_info old.device_info;
    ip_address = or_kept ip_address old.ip_address;
    expires_at = now + ttl;
    revoked_at = none;
    family_id = old.family_id;
    previous_token_id = some old.id;
    replaced_by_token_id = none;
  }

  abbrev pub moved_session : RefreshToken → ℕ → UserSession → UserSession
  moved_session new now x = record x {
    refresh_token_id = some new.id;
    device_info = new.device_info;
    ip_address = new.ip_address;
    last_activity_at = now;
    expires_at = new.expires_at;
    is_active = true;
  }

  -- The branch of a token that can be used: its session moves to the token that replaces it.
  unfoldable pub rotate_usable :
      RefreshToken
      → Option String
      → Option String
      → ℕ
      → String
      → ℕ
      → Exec Auth AuthError (Option IssuedRefreshToken)
  unfolding active_of_token add_token or_kept update_token update_session
  rotate_usable old device_info ip_address ttl token now = do
    sess ← (λ s. (one (active_of_token old.id s.sessions), s))
    id ← gets (λ s. s.next_id)
    let new = replacement old device_info ip_address ttl token now id
    add_token new
    modify (with_tokens (update_token old.id (replaced now id)))
    modify (with_sessions (update_session sess.id (moved_session new now)))
    pure (
        some
          (record { raw_token = token; refresh_token = new; session = moved_session new now sess }))

  unfoldable pub rotate_found :
      Option ℕ
      → RefreshToken
      → Option String
      → Option String
      → ℕ
      → String
      → ℕ
      → Exec Auth AuthError (Option IssuedRefreshToken)
  unfolding is_usable
  rotate_found (some _) old device_info ip_address ttl token now = replay old now
  rotate_found none old device_info ip_address ttl token now =
      if is_usable now old
      then rotate_usable old device_info ip_address ttl token now
      else raise invalid_refresh_token

  unfoldable pub rotate_refresh_token :
      String
      → Option String
      → Option String
      → ℕ
      → String
      → ℕ
      → Exec Auth AuthError IssuedRefreshToken
  unfolding find_token rotate_found
  rotate_refresh_token raw_token device_info ip_address ttl token now = do
    issued ← transaction (do
      old ← (λ s. or_raise (find_token (hash raw_token) s.tokens) invalid_refresh_token s)
      rotate_found old.replaced_by_token_id old device_info ip_address ttl token now)
    or_raise issued token_reuse_detected

unfoldable pub deactivate_found : Option UserSession → Auth → Auth
unfolding update_session
deactivate_found none s = s
deactivate_found (some x) s = with_sessions (update_session x.id deactivated) s

-- `revoke_refresh_token`, where a second session of the token makes the select fail.
unfoldable pub revoke_refresh_token : ℕ → ℕ → Exec Auth AuthError (Unit {0})
unfolding get_token all_of_token update_token revoked deactivate_found
revoke_refresh_token refresh_token_id now = transaction (do
  refresh_token ← (λ s. or_raise (get_token refresh_token_id s.tokens) invalid_refresh_token s)
  user_session ← (λ s. (one_or_none (all_of_token refresh_token_id s.sessions), s))
  modify (with_tokens (update_token refresh_token_id (revoked now)))
  modify (deactivate_found user_session))

-- The token of a session, if it has one that is there.
unfoldable pub revoke_token_of : Option ℕ → ℕ → Auth → Auth
unfolding update_token revoked
revoke_token_of none now s = s
revoke_token_of (some i) now s = with_tokens (update_token i (revoked now)) s

unfoldable pub end_session : ℕ → UserSession → Auth → Auth
unfolding update_session revoke_token_of
end_session now x s =
    revoke_token_of x.refresh_token_id now (with_sessions (update_session x.id deactivated) s)

unfoldable pub revoke_session : ℕ → ℕ → Auth → Auth
unfolding get_session end_session
revoke_session session_id now s = elim (get_session session_id s.sessions) [
  | none ↦ s
  | some x ↦ end_session now x s
]

unfoldable pub end_sessions : ℕ → List UserSession → Auth → Auth
unfolding end_session
end_sessions now [] s = s
end_sessions now (x ∷ xs) s = end_sessions now xs (end_session now x s)

unfoldable pub revoke_all_sessions_for_user : ℕ → ℕ → Auth → Auth
unfolding active_of_user end_sessions
revoke_all_sessions_for_user user_id now s = end_sessions now (active_of_user user_id s.sessions) s

unfoldable pub list_active_sessions : ℕ → ℕ → List UserSession → List UserSession
list_active_sessions user_id now [] = []
list_active_sessions user_id now (x ∷ xs) =
    if x.user_id == user_id && x.is_active && ltb now x.expires_at
    then x ∷ list_active_sessions user_id now xs
    else list_active_sessions user_id now xs
