-- ===== src/Auth/Login.antt =====
-- app/services/auth_service.py: login, rotation of refresh tokens, logout.
use repo_info_backend.Auth.Issue.{AuthResult, AuthTokens, client_host, issue_tokens, stored_hash}
use repo_info_backend.Auth.Repositories.{
  audit_log, get_by_email, get_by_raw, get_user, revoke, revoke_all_for_user, touch_login,
}
use repo_info_backend.Auth.Tables.{RefreshToken, Request, User, World}
use repo_info_backend.Core.Errors.{AppError}
use repo_info_backend.Core.Security.{Claims, Decoded, Env, TokenType, decode_token, token_type_eq}
use repo_info_backend.Database.Session.{Action, gets, or_raise, pure, raise, raise_if, ◌>>=◌, ◌>>◌}
use repo_info_backend.Database.Times.{db_now, is_before, loaded}
use repo_info_backend.Models.Enums.{AuditAction}
use repo_info_backend.Prelude.{
  Bool, Option, Text, [], if◌then◌else◌, is_some, nat_eq, none, not, some, string_eq, text_eq, ◌==◌,
  ◌∷◌,
}

pub record LoginRequest : Type 0 where
  pub email : Text
  pub password : Text
  pub remember_me : Bool

unfoldable pub login : Env → LoginRequest → Option Request → Action World AuthResult
unfolding issue_tokens touch_login audit_log
login env payload request = do
  user ← or_raise (← gets (get_by_email env payload.email)) AppError.invalid_credentials
  hashed_password ← or_raise (stored_hash user) AppError.invalid_credentials
  raise_if (not (env.crypto.verify payload.password hashed_password)) AppError.invalid_credentials
  raise_if (not user.is_active)
      (AppError.unauthorized "This account has been deactivated." (some "account_disabled"))
  touch_login env user.id (client_host request)
  tokens ← issue_tokens env user payload.remember_me request
  audit_log (some user.id) AuditAction.login "user" (some user.id) (client_host request)
  pure (record { user = user; tokens = tokens })

abbrev require_payload : Decoded → Action World Claims
require_payload (Decoded.payload claims) = pure claims
require_payload _ = raise (AppError.token_invalid "Token is invalid.")

-- reuse detection: a revoked token revokes every token of its user
reject_reuse : Env → RefreshToken → Action World (Unit {0})
unfolding revoke_all_for_user
reject_reuse env rt =
    if is_some rt.revoked_at
    then (do
      revoke_all_for_user env rt.user_id
      raise (AppError.token_invalid "Refresh token has been revoked."))
    else pure tt

abbrev active_user : Option User → Option User
active_user none = none
active_user (some user) = if user.is_active then some user else none

-- the end of `refresh`, once the presented token and its user are accepted
unfoldable pub rotate : Env → RefreshToken → User → Option Request → Action World AuthTokens
unfolding issue_tokens revoke
rotate env rt user request = do
  tokens ← issue_tokens env user rt.remember_me request
  replacement ← gets (get_by_raw env tokens.refresh_token)
  revoke env rt replacement
  pure tokens

unfoldable pub refresh : Env → Text → Option Request → Action World AuthTokens
unfolding reject_reuse
refresh env raw_refresh_token request = do
  require_payload (decode_token env raw_refresh_token TokenType.refresh)
  rt ←
      or_raise (← gets (get_by_raw env raw_refresh_token))
        (AppError.token_invalid "Refresh token is not recognized.")
  reject_reuse env rt
  late ← is_before (loaded rt.expires_at) (db_now env)
  raise_if late (AppError.token_invalid "Refresh token has expired.")
  user ←
      or_raise (active_user (← gets (get_user rt.user_id)))
        (AppError.unauthorized "User no longer active." none)
  rotate env rt user request

-- `if rt and rt.user_id == user.id`
unfoldable pub revoke_own : Env → User → Option RefreshToken → Action World (Unit {0})
unfolding revoke
revoke_own env user none = pure tt
revoke_own env user (some rt) = if rt.user_id == user.id then revoke env rt none else pure tt

logout_tokens : Env → User → Option Text → Action World (Unit {0})
unfolding revoke_own revoke_all_for_user
logout_tokens env user none = revoke_all_for_user env user.id
logout_tokens env user (some []) = revoke_all_for_user env user.id
logout_tokens env user (some (c ∷ cs)) = do
  rt ← gets (get_by_raw env (c ∷ cs))
  revoke_own env user rt

unfoldable pub logout : Env → User → Option Text → Action World (Unit {0})
unfolding logout_tokens audit_log
logout env user raw_refresh_token = do
  logout_tokens env user raw_refresh_token
  audit_log (some user.id) AuditAction.logout "user" (some user.id) none
