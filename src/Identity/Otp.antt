-- ===== src/Identity/Otp.antt =====
-- services/identity-service/app/services/otp_service.py, and the rows of VerificationCode in
-- services/identity-service/app/models/auth.py.
pub mod Attempts
pub mod Fresh
use foodo.Prelude.{
  ℕ, ◌+◌, leb, ltb, String, Bool, true, false, not, ◌&&◌, Option, none, some, List, [], ◌∷◌, ◌++◌,
  ◌==◌, if◌then◌else◌, is_some, Exec, ok, err,
}

pub data VerificationCodePurpose : Type 0 where
  phone_verification email_verification password_reset : VerificationCodePurpose
  login email_change phone_change : VerificationCodePurpose

pub data VerificationCodeType : Type 0 where
  sms email : VerificationCodeType

pub record VerificationCode : Type 0 where
  pub user_id : ℕ
  pub code_hash : String
  pub delivery_type : VerificationCodeType
  pub purpose : VerificationCodePurpose
  pub expires_at : ℕ
  pub used_at : Option ℕ
  pub attempts : ℕ

-- The table, newest row first, and the messages published so far.
pub record Otp : Type 0 where
  pub codes : List VerificationCode
  pub outbox : List (ℕ × VerificationCodePurpose × VerificationCodeType)

pub data OtpError : Type 0 where
  otp_code_invalid otp_attempts_exhausted : OtpError

-- Members of an enum are equal when they stand at the same place.
abbrev purpose_place : VerificationCodePurpose → ℕ
purpose_place phone_verification = 0
purpose_place email_verification = 1
purpose_place password_reset = 2
purpose_place login = 3
purpose_place email_change = 4
purpose_place phone_change = 5

-- The conditions that both selects share: the user's, for the purpose, and not used.
unfoldable pub is_open : ℕ → VerificationCodePurpose → VerificationCode → Bool
is_open user_id purpose c =
    c.user_id == user_id
    && purpose_place c.purpose == purpose_place purpose
    && not (is_some c.used_at)

-- Open codes that have not expired are marked as used.
unfoldable pub invalidate :
    ℕ → VerificationCodePurpose → ℕ → List VerificationCode → List VerificationCode
unfolding is_open
invalidate user_id purpose now [] = []
invalidate user_id purpose now (c ∷ cs) =
    (if is_open user_id purpose c && ltb now c.expires_at
      then record c { used_at = some now }
      else c)
    ∷ invalidate user_id purpose now cs

-- The newest open code.
unfoldable pub find_newest :
    ℕ → VerificationCodePurpose → List VerificationCode → Option VerificationCode
unfolding is_open
find_newest user_id purpose [] = none
find_newest user_id purpose (c ∷ cs) =
    if is_open user_id purpose c then some c else find_newest user_id purpose cs

-- The flush of the row that `find_newest` found.
unfoldable pub put_newest :
    ℕ → VerificationCodePurpose → VerificationCode → List VerificationCode → List VerificationCode
unfolding is_open
put_newest user_id purpose d [] = []
put_newest user_id purpose d (c ∷ cs) =
    if is_open user_id purpose c then d ∷ cs else c ∷ put_newest user_id purpose d cs

-- The hash of a code and its test, and the two settings: minutes of validity, in microseconds, and the
-- number of attempts.
module _ (hash : String → String) (matches : String → String → Bool)
    (validity max_attempts : ℕ) where
  abbrev pub new_code :
      ℕ → VerificationCodePurpose → VerificationCodeType → String → ℕ → VerificationCode
  new_code user_id purpose delivery_type code now = record {
    user_id = user_id;
    code_hash = hash code;
    delivery_type = delivery_type;
    purpose = purpose;
    expires_at = now + validity;
    used_at = none;
    attempts = 0;
  }

  -- `code` is the random code that is drawn.
  unfoldable pub generate_and_store_otp :
      ℕ → VerificationCodePurpose → VerificationCodeType → String → ℕ → Exec Otp OtpError String
  unfolding invalidate
  generate_and_store_otp user_id purpose delivery_type code now s = (
    ok code,
    record {
      codes =
          new_code user_id purpose delivery_type code now ∷ invalidate user_id purpose now s.codes;
      outbox = s.outbox ++ (user_id, purpose, delivery_type) ∷ [];
    },
  )

  -- The checks of a code that was found. An exception takes back what the transaction wrote, the
  -- attempt that is counted before the exception too.
  unfoldable pub verify_found :
      VerificationCode → ℕ → VerificationCodePurpose → String → ℕ → Exec Otp OtpError Bool
  unfolding put_newest
  verify_found c user_id purpose submitted_code now s =
      if ltb c.expires_at now
      then (err otp_code_invalid, s)
      else if leb max_attempts c.attempts
      then (err otp_attempts_exhausted, s)
      else if not (matches submitted_code c.code_hash)
      then (
        ok false,
        record s {
          codes = put_newest user_id purpose (record c { attempts = c.attempts + 1 }) s.codes;
        },
      )
      else (
        ok true,
        record s { codes = put_newest user_id purpose (record c { used_at = some now }) s.codes },
      )

  unfoldable pub verify_otp : ℕ → VerificationCodePurpose → String → ℕ → Exec Otp OtpError Bool
  unfolding find_newest verify_found
  verify_otp user_id purpose submitted_code now s = elim (find_newest user_id purpose s.codes) [
    | none ↦ (err otp_code_invalid, s)
    | some c ↦ verify_found c user_id purpose submitted_code now s
  ]
