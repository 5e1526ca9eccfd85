-- ===== src/Auth/Passwords.antt =====
-- app/services/auth_service.py: password reset and change.
use repo_info_backend.Auth.Issue.{send, stored_hash}
use repo_info_backend.Auth.Repositories.{
  enqueue, get_by_email, get_reset_by_raw, get_user, revoke_all_for_user, uuid4, write_reset,
  write_user,
}
use repo_info_backend.Auth.Tables.{Mail, PasswordResetToken, User, World}
use repo_info_backend.Core.Errors.{AppError}
use repo_info_backend.Core.Security.{
  Env, TokenType, create_special_purpose_token, hash_token, minutes,
}
use repo_info_backend.Database.Session.{Action, gets, modify, or_raise, pure, raise_if, ◌>>=◌, ◌>>◌}
use repo_info_backend.Database.Times.{db_now, is_before, loaded}
use repo_info_backend.Models.Enums.{NotificationCategory}
use repo_info_backend.Prelude.{Option, Text, [], is_some, none, not, some, ℕ, ◌++◌, ◌+◌, ◌∷◌}

abbrev pub reset_row : Env → User → ℕ → Text → PasswordResetToken
reset_row env user id raw = record {
  id = id;
  user_id = user.id;
  token_hash = hash_token env raw;
  expires_at = env.now + minutes env.settings.password_reset_token_expire_minutes;
  consumed_at = none;
}

-- the token of the mailed link
abbrev pub reset_token : Env → User → ℕ → Text
unfolding create_special_purpose_token
reset_token env user jti =
    create_special_purpose_token env user.id TokenType.password_reset
      (minutes env.settings.password_reset_token_expire_minutes) jti

-- the mailed link is known by the token in it
request_reset : Env → Option User → Action World (Unit {0})
request_reset env none = pure tt
request_reset env (some user) = do
  jti ← uuid4
  let raw = reset_token env user jti
  id ← uuid4
  modify (λ s. record s {
    db = record s.db { password_resets = s.password_resets ++ reset_row env user id raw ∷ [] };
  })
  send (Mail.password_reset user.email raw)

unfoldable pub forgot_password : Env → Text → Action World (Unit {0})
unfolding request_reset
forgot_password env email = do user ← gets (get_by_email env email); request_reset env user

abbrev pub with_password : Env → Text → User → User
with_password env password u = record u { hashed_password = some (env.crypto.hash password) }

abbrev pub used : Env → PasswordResetToken → PasswordResetToken
used env r = record r { consumed_at = some env.now }

unfoldable pub reset_password : Env → Text → Text → Action World (Unit {0})
unfolding revoke_all_for_user enqueue
reset_password env token password = do
  row ←
      or_raise (← gets (get_reset_by_raw env token))
        (AppError.bad_request "Invalid or already used reset token." none)
  raise_if (is_some row.consumed_at)
      (AppError.bad_request "Invalid or already used reset token." none)
  late ← is_before (loaded row.expires_at) (db_now env)
  raise_if late (AppError.bad_request "Reset token has expired." none)
  user ← or_raise (← gets (get_user row.user_id)) (AppError.not_found "User")
  write_user user.id (with_password env password)
  write_reset row.id (used env)
  revoke_all_for_user env user.id
  enqueue user.id NotificationCategory.security "Password changed"
      "Your password was reset successfully."

unfoldable pub change_password : Env → User → Text → Text → Action World (Unit {0})
unfolding revoke_all_for_user enqueue
change_password env user current_password new_password = do
  hashed_password ← or_raise (stored_hash user) AppError.invalid_credentials
  raise_if (not (env.crypto.verify current_password hashed_password)) AppError.invalid_credentials
  write_user user.id (with_password env new_password)
  revoke_all_for_user env user.id
  enqueue user.id NotificationCategory.security "Password changed"
      "Your password was updated successfully."
