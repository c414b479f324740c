-- ===== src/Identity/Model.antt =====
-- The rows of services/identity-service/app/models/auth.py that the session and one-time password
-- services read and write. A UUID is a number and a moment a number of microseconds. The columns
-- of the mixins (creation, update, soft deletion) are left out: these services do not read them.
use foodo.Prelude.{ℕ, String, Bool, Option, List}

pub record RefreshToken : Type 0 where
  pub id : ℕ
  pub user_id : ℕ
  pub token_hash : String
  pub device_info : Option String
  pub ip_address : Option String
  pub expires_at : ℕ
  pub revoked_at : Option ℕ
  pub family_id : ℕ
  pub previous_token_id : Option ℕ
  pub replaced_by_token_id : Option ℕ

pub record UserSession : Type 0 where
  pub id : ℕ
  pub user_id : ℕ
  pub refresh_token_id : Option ℕ
  pub device_info : Option String
  pub ip_address : Option String
  pub last_activity_at : ℕ
  pub expires_at : ℕ
  pub is_active : Bool

-- `next_id` is a UUID that nothing has.
pub record AuthTables : Type 0 where
  pub tokens : List RefreshToken
  pub sessions : List UserSession
  pub next_id : ℕ

-- What is published: the user, the token and the family of a replayed token.
pub data AuthMessage : Type 0 where
  refresh_token_replay : ℕ → ℕ → ℕ → AuthMessage

-- A database session, with the messages published so far.
pub record Auth : Type 0 where
  pub rows : AuthTables
  pub open rows use *
  pub outbox : List AuthMessage

-- InvalidRefreshTokenError, TokenReuseDetectedError, and what the database layer raises: a select
-- of one row that finds none or several, and a second row with a unique hash.
pub data AuthError : Type 0 where
  invalid_refresh_token token_reuse_detected : AuthError
  no_result_found multiple_results_found : AuthError
  integrity : AuthError
