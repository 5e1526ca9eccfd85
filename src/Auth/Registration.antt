-- ===== src/Auth/Registration.antt =====
-- app/services/auth_service.py: registration, and the verification of an address by a code.
use repo_info_backend.Auth.Issue.{AuthResult, issue_tokens, send}
use repo_info_backend.Auth.Repositories.{
  audit_log, create_user, get_by_email, get_by_username, latest_for, uuid4, write_otp, write_user,
}
use repo_info_backend.Auth.Tables.{EmailOtp, Mail, Request, User, World}
use repo_info_backend.Core.Errors.{AppError}
use repo_info_backend.Core.Security.{Env, generate_otp, hash_token, minutes}
use repo_info_backend.Database.Session.{
  Action, gets, modify, or_raise, pure, raise, raise_if, ◌>>=◌, ◌>>◌,
}
use repo_info_backend.Database.Times.{db_now, is_before, loaded}
use repo_info_backend.Models.Enums.{AuditAction}
use repo_info_backend.Prelude.{
  Option, Text, [], false, if◌then◌else◌, is_some, nat_eq, none, some, string_eq, text_eq, true,
  ◌!=◌, ◌++◌, ◌+◌, ◌∷◌,
}

-- the purpose is always the default, "email_verification"
unfoldable pub issue_otp : Env → User → Action World Text
issue_otp env user = do
  let code = generate_otp env
  id ← uuid4
  let otp : EmailOtp = record {
    id = id;
    user_id = user.id;
    code_hash = hash_token env code;
    purpose = "email_verification";
    expires_at = env.now + minutes env.settings.otp_expire_minutes;
    consumed_at = none;
    attempts = 0;
    created_at = env.now;
  }
  modify (λ s. record s { db = record s.db { otps = s.otps ++ otp ∷ [] } })
  pure code

pub record RegisterRequest : Type 0 where
  pub display_name : Text
  pub username : Text
  pub email : Text
  pub password : Text

unfoldable pub register : Env → RegisterRequest → Option Request → Action World AuthResult
unfolding issue_tokens issue_otp create_user audit_log
register env payload request = do
  by_email ← gets (get_by_email env payload.email)
  raise_if (is_some by_email)
      (AppError.conflict "An account with this email already exists." (some "email_taken"))
  by_username ← gets (get_by_username payload.username)
  raise_if (is_some by_username)
      (AppError.conflict "This username is already taken." (some "username_taken"))
  user ←
      create_user env payload.email payload.username payload.display_name
        (some (env.crypto.hash payload.password)) false
  code ← issue_otp env user
  send (Mail.verification user.email code)
  audit_log (some user.id) AuditAction.create "user" (some user.id) none
  tokens ← issue_tokens env user false request
  pure (record { user = user; tokens = tokens })

-- the writes of a successful verification
abbrev pub consumed : Env → EmailOtp → EmailOtp
consumed env o = record o { consumed_at = some env.now }

abbrev pub verified : User → User
verified u = record u { email_verified = true }

abbrev pub attempted : EmailOtp → EmailOtp
attempted o = record o { attempts = o.attempts + 1 }

-- the comparison of the code with the stored hash
check_code : Env → Text → EmailOtp → Action World (Unit {0})
check_code env code otp =
    if otp.code_hash != hash_token env code
    then (do
      write_otp otp.id attempted
      raise (AppError.bad_request "Invalid verification code." (some "otp_invalid")))
    else pure tt

unfoldable pub verify_otp : Env → Text → Text → Option Request → Action World AuthResult
unfolding issue_tokens check_code
verify_otp env email code request = do
  user ← or_raise (← gets (get_by_email env email)) (AppError.not_found "User")
  otp ←
      or_raise (← gets (latest_for user.id "email_verification"))
        (AppError.bad_request "No pending verification code. Request a new one." none)
  late ← is_before (loaded otp.expires_at) (db_now env)
  raise_if late (AppError.bad_request "Verification code has expired." (some "otp_expired"))
  check_code env code otp
  write_otp otp.id (consumed env)
  write_user user.id verified
  tokens ← issue_tokens env user false request
  pure (record { user = verified user; tokens = tokens })

-- sends the code, if there is a user: the caller is told nothing
resend_to : Env → Option User → Action World (Unit {0})
unfolding issue_otp
resend_to env none = pure tt
resend_to env (some user) = do code ← issue_otp env user; send (Mail.verification user.email code)

unfoldable pub resend_otp : Env → Text → Action World (Unit {0})
unfolding resend_to
resend_otp env email = do user ← gets (get_by_email env email); resend_to env user
