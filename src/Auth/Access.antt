-- ===== src/Auth/Access.antt =====
-- app/dependencies/auth.py: the user that a bearer token stands for.
use repo_info_backend.Auth.Repositories.{revoked}
use repo_info_backend.Auth.Tables.{User, World}
use repo_info_backend.Core.Errors.{AppError, Exception}
use repo_info_backend.Core.Security.{Claims, Decoded, Env, TokenType, decode_token, token_type_eq}
use repo_info_backend.Database.Session.{
  Action, Result, err, gets, ok, or_raise, pure, raise, raise_if, ◌>>=◌, ◌>>◌,
}
use repo_info_backend.Models.Enums.{GlobalRole, global_role_eq}
use repo_info_backend.Prelude.{
  Bool, List, Option, Text, [], false, find?, if◌then◌else◌, is_none, is_some, ltb, nat_eq, none,
  not, some, string_eq, text_eq, true, ℕ, ◌&&◌, ◌==◌, ◌||◌, ◌∷◌,
}

-- the key in Redis, until it expires
abbrev pub is_token_revoked : Env → ℕ → World → Bool
is_token_revoked env jti s =
    is_some (find? (λ (k : ℕ × ℕ). k.0 == jti && ltb env.now k.1) s.revoked_jtis)

abbrev access_payload : Decoded → Action World Claims
access_payload (Decoded.payload claims) = pure claims
access_payload Decoded.expired = raise (AppError.token_invalid "Access token has expired.")
access_payload Decoded.invalid = raise (AppError.token_invalid "Token is invalid.")

unfoldable pub get_current_user : Env → Option Text → Action World User
get_current_user env credentials = do
  token ← or_raise credentials (
      AppError.unauthorized "Authentication credentials were not provided."
        (some "not_authenticated"))
  payload ← access_payload (decode_token env token TokenType.access)
  revoked ← gets (is_token_revoked env payload.jti)
  raise_if revoked (AppError.token_invalid "Access token has been revoked.")
  user ←
      or_raise (← gets (λ s. find? (λ u. u.id == payload.sub && is_none u.deleted_at) s.users))
        (AppError.unauthorized "User no longer exists." (some "user_not_found"))
  raise_if (not user.is_active) (AppError.forbidden "This account has been deactivated.")
  pure user

unfoldable pub get_current_verified_user : User → Action World User
get_current_verified_user user = do
  raise_if (not user.email_verified)
      (AppError.forbidden "Please verify your email address to continue.")
  pure user

-- the classes below `UnauthorizedError`
abbrev pub is_unauthorized : Exception → Bool
is_unauthorized (Exception.app (AppError.unauthorized m c)) = true
is_unauthorized (Exception.app AppError.invalid_credentials) = true
is_unauthorized (Exception.app (AppError.token_expired m)) = true
is_unauthorized (Exception.app (AppError.token_invalid m)) = true
is_unauthorized _ = false

-- `except UnauthorizedError: return None`
abbrev anonymous : Result User × World → Result (Option User) × World
anonymous (ok u, s) = (ok (some u), s)
anonymous (err e, s) = if is_unauthorized e then (ok none, s) else (err e, s)

unfoldable pub get_optional_user : Env → Option Text → Action World (Option User)
get_optional_user env none s = (ok none, s)
get_optional_user env (some token) s = anonymous (get_current_user env (some token) s)

abbrev pub role_in : GlobalRole → List GlobalRole → Bool
role_in r [] = false
role_in r (x ∷ xs) = r == x || role_in r xs

unfoldable pub require_global_role : List GlobalRole → User → Action World User
require_global_role roles user = do
  raise_if (not (role_in user.global_role roles))
      (AppError.forbidden "You do not have permission to perform this action.")
  pure user

unfoldable pub require_admin : User → Action World User
unfolding require_global_role
require_admin = require_global_role (GlobalRole.admin ∷ GlobalRole.super_admin ∷ [])
