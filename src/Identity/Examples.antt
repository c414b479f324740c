-- ===== src/Identity/Examples.antt =====
-- Runs of the session and one-time password services.
use text.Mathlib.Text.{◌==◌ as str_eq}
use foodo.Prelude.{
  ℕ, ◌+◌, ◌≤◌, ◌≡◌, refl, inl, inr, String, true, none, some, List, [], ◌∷◌, arith, ok, err,
}
use foodo.Prelude.{false, if◌then◌else◌}
use foodo.Identity.Permissions.{is_in}
use foodo.Identity.Permissions.Platform.{
  PlatformTables, compute_platform_role_permissions, live_codes, is_assigned, is_named, get_user,
  category_codes, fallback_codes,
}
use foodo.Identity.Permissions.Platform.Granted.{
  is_granted, is_given, compute_platform_role_permissions-granted,
}
use foodo.Identity.Model.{RefreshToken, UserSession, Auth, token_reuse_detected, no_result_found}
use foodo.Identity.Sessions.{
  IssuedRefreshToken, find_token, active_of_user, has_token, is_usable, get_usable_refresh_token,
  rotate_refresh_token, rotate_usable,
}
use foodo.Identity.Sessions.Replay.{live, rotate_refresh_token_again, replay_orphans}
use foodo.Identity.Sessions.Linear.{IsLinear, AuthRequest, issue, rotate, run, run-IsLinear}
use foodo.Identity.Otp.{
  login, sms, Otp, otp_code_invalid, find_newest, generate_and_store_otp, verify_otp,
}
use foodo.Identity.Otp.Attempts.{compared, compared-le}
use foodo.Identity.Otp.Fresh.{generated_used_once}

abbrev plain : String → String
plain t = t

abbrev nobody : Auth
nobody = record { rows = record { tokens = []; sessions = []; next_id = 1 }; outbox = [] }

nobody-IsLinear : IsLinear nobody
nobody-IsLinear = record { drawn = tt; alone = λ f. omega arith }

-- A user signs in on two devices, and the first device's token is rotated.
abbrev two_logins : List AuthRequest
two_logins =
    issue 5 (some "phone") none 1000 "a" 10
    ∷ issue 5 (some "tablet") none 1000 "b" 20
    ∷ rotate "a" none none 1000 "c" 30
    ∷ []

run-IsLinear_example : IsLinear (run plain two_logins nobody)
run-IsLinear_example = run-IsLinear plain two_logins nobody nobody-IsLinear

abbrev first_device : RefreshToken
first_device = record {
  id = 1;
  user_id = 5;
  token_hash = "a";
  device_info = some "phone";
  ip_address = none;
  expires_at = 1010;
  revoked_at = none;
  family_id = 1;
  previous_token_id = none;
  replaced_by_token_id = none;
}

abbrev second_device : RefreshToken
second_device = record first_device { id = 2; token_hash = "b"; expires_at = 1020; family_id = 2 }

abbrev session_of : ℕ → UserSession
session_of i = record {
  id = i;
  user_id = 5;
  refresh_token_id = some i;
  device_info = none;
  ip_address = none;
  last_activity_at = 10;
  expires_at = 1010;
  is_active = true;
}

abbrev signed_in : Auth
signed_in = record {
  rows = record {
    tokens = first_device ∷ second_device ∷ [];
    sessions = session_of 1 ∷ session_of 2 ∷ [];
    next_id = 3;
  };
  outbox = [];
}

abbrev rotated : IssuedRefreshToken
rotated = record {
  raw_token = "c";
  refresh_token = record first_device {
    id = 3;
    token_hash = "c";
    expires_at = 1030;
    previous_token_id = some 1;
  };
  session = record (session_of 1) {
    refresh_token_id = some 3;
    device_info = some "phone";
    last_activity_at = 30;
    expires_at = 1030;
  };
}

rotation_granted : (rotate_refresh_token plain "a" none none 1000 "c" 30 signed_in).0 ≡ ok rotated
unfolding rotate_refresh_token rotate_usable
rotation_granted = refl

rotate_refresh_token_again_example :
    let t = (rotate_refresh_token plain "a" none none 1000 "c" 30 signed_in).1 in
    let u = (rotate_refresh_token plain "a" none none 1000 "d" 40 t).1 in
    ((rotate_refresh_token plain "a" none none 1000 "d" 40 t).0 ≡ err token_reuse_detected)
    × (live 1 u.tokens ≡ 0)
    × (active_of_user 5 u.sessions ≡ [])
rotate_refresh_token_again_example =
    rotate_refresh_token_again plain "a" "c" "d" none none none none 1000 1000 30 40 signed_in
      rotated rotation_granted

-- The first device's token was replaced by a third.
abbrev replaced_device : RefreshToken
replaced_device = record first_device { revoked_at = some 30; replaced_by_token_id = some 3 }

abbrev stolen : Auth
stolen = record signed_in {
  rows = record {
    tokens = replaced_device ∷ second_device ∷ [];
    sessions = session_of 3 ∷ session_of 2 ∷ [];
    next_id = 4;
  };
}

replay_orphans_example :
    let t = (rotate_refresh_token plain "a" none none 1000 "d" 40 stolen).1 in
    ((get_usable_refresh_token plain "b" 50 t).0 ≡ ok second_device)
    × ((rotate_refresh_token plain "b" none none 1000 "e" 50 t).0 ≡ err no_result_found)
unfolding find_token is_usable has_token
replay_orphans_example =
    replay_orphans plain "a" "b" "d" "e" none none none none 1000 1000 40 50 stolen replaced_device
      second_device 3 refl refl refl (λ e. omega arith) refl refl (inl refl, (inr refl, tt))

-- one-time passwords
abbrev one_code : Otp
one_code = record {
  codes =
      record {
        user_id = 5;
        code_hash = "123456";
        delivery_type = sms;
        purpose = login;
        expires_at = 1000;
        used_at = none;
        attempts = 3;
      }
      ∷ [];
  outbox = [];
}

abbrev three_guesses : List (ℕ × String)
three_guesses = (10, "000000") ∷ (11, "000001") ∷ (12, "000002") ∷ []

three_guesses-compared : compared plain str_eq 300 5 5 login three_guesses one_code ≡ 2
unfolding compared verify_otp
three_guesses-compared = refl

compared-le_example : compared plain str_eq 300 5 5 login three_guesses one_code + 3 ≤ 5
unfolding find_newest
compared-le_example =
    compared-le plain str_eq 300 5 5 login three_guesses one_code
      (record {
        user_id = 5;
        code_hash = "123456";
        delivery_type = sms;
        purpose = login;
        expires_at = 1000;
        used_at = none;
        attempts = 3;
      })
      refl (omega arith) (refl, (refl, (refl, tt)))

generated_used_once_example :
    let t = (generate_and_store_otp plain str_eq 300 5 5 login sms "654321" 100 one_code).1 in
    let r = verify_otp plain str_eq 300 5 5 login "654321" 200 t in
    (r.0 ≡ ok true)
    × ((verify_otp plain str_eq 300 5 5 login "654321" 201 r.1).0 ≡ err otp_code_invalid)
generated_used_once_example =
    generated_used_once plain str_eq 300 5 5 login sms "654321" "654321" 100 200 201 one_code refl
      (omega arith) (omega arith) (omega arith)

-- User 5 is a driver with role 2, which has no code; role 1 has the name of the category.
abbrev platform : PlatformTables
platform = record {
  roles =
      record { id = 1; name = "driver"; is_deleted = false }
      ∷ record { id = 2; name = "trainee"; is_deleted = false }
      ∷ [];
  permissions =
      record { platform_role_id = 1; permission_code = "delivery.view"; is_deleted = false }
      ∷ record { platform_role_id = 2; permission_code = "delivery.view"; is_deleted = true }
      ∷ [];
  user_roles = record { user_id = 5; platform_role_id = 2; is_deleted = false } ∷ [];
  users = record { id = 5; user_category = "driver" } ∷ [];
}

trainee-drives : compute_platform_role_permissions 5 platform ≡ "delivery.view" ∷ []
unfolding compute_platform_role_permissions live_codes is_assigned is_named get_user category_codes
    fallback_codes
trainee-drives = refl

compute_platform_role_permissions-granted_example :
    is_in "delivery.view" (compute_platform_role_permissions 5 platform) ≡ (
      if is_granted (λ x. true) 5 platform.user_roles platform.permissions
      then is_granted (λ x. str_eq x "delivery.view") 5 platform.user_roles platform.permissions
      else is_given (λ x. str_eq x "delivery.view") (get_user 5 platform.users) platform)
compute_platform_role_permissions-granted_example =
    compute_platform_role_permissions-granted "delivery.view" 5 platform
