-- ===== src/Auth/Bearer.antt =====
-- Which tokens the dependencies of app/dependencies/auth.py accept.
use repo_info_backend.Auth.Access.{
  get_current_user, get_optional_user, require_admin, require_global_role, role_in,
}
use repo_info_backend.Auth.Sessions.{revoke_access_token}
use repo_info_backend.Auth.Tables.{User, World}
use repo_info_backend.Core.Errors.{AppError, Exception}
use repo_info_backend.Core.Security.{
  Claims, CryptoLaws, Decoded, Env, TokenType, base_claims, create_refresh_token, decode_token,
  minutes, refresh_claims, token_type_eq,
}
use repo_info_backend.Database.Session.{err, ok}
use repo_info_backend.Models.Enums.{GlobalRole, global_role_eq}
use repo_info_backend.Prelude.{
  Bool, Option, Text, [], arith, inl, inr, lt→ltb, nat_beq_refl, nat_eq, none, refl, some,
  string_eq, text_eq, true, ℕ, ◌+◌, ◌<◌, ◌↔◌, ◌∷◌, ◌≡◌, ◌⊎◌,
}

-- The claims of the access token that `_issue_tokens` signs in this state.
abbrev pub access_claims : Env → ℕ → ℕ → Claims
unfolding base_claims
access_claims env user_id jti =
    base_claims env user_id TokenType.access (minutes env.settings.jwt_access_token_expire_minutes)
      jti

-- Revoking the key of an access token ends it at once, for as long as the entry lives in Redis.
pub revoke_access_token-get_current_user :
    (env later : Env) (token : Text) (c : Claims) (ttl : ℕ) (s : World)
    → decode_token later token TokenType.access ≡ Decoded.payload c
    → later.now < env.now + ttl
    → get_current_user later (some token) (revoke_access_token env c.jti ttl s).1 ≡ (
      err (Exception.app (AppError.token_invalid "Access token has been revoked.")),
      (revoke_access_token env c.jti ttl s).1,
    )
unfolding get_current_user revoke_access_token
revoke_access_token-get_current_user env later token c ttl s d alive =
    rw (d, nat_beq_refl c.jti, lt→ltb later.now (env.now + ttl) alive)

-- A refresh token is no access token: whoever presents one is refused, and is a guest where signing
-- in is optional.
pub refresh_token_refused :
    (env later : Env) (user_id jti : ℕ) (remember_me : Bool) (s : World)
    → CryptoLaws env.crypto
    → later.crypto ≡ env.crypto
    → later.settings ≡ env.settings
    → later.now < (refresh_claims env user_id remember_me jti).exp
    → let token : Text = (create_refresh_token env user_id remember_me jti).0 in
      (get_current_user later (some token) s
        ≡ (err (Exception.app (AppError.token_invalid "Token is invalid.")), s))
      × (get_optional_user later (some token) s ≡ (ok none, s))
unfolding get_current_user get_optional_user decode_token create_refresh_token refresh_claims
    base_claims
refresh_token_refused env later user_id jti remember_me s laws same_crypto same_settings before =
    rw
      (
        same_crypto,
        same_settings,
        laws.jwt_decode-encode env.settings.secret_key later.now
            (refresh_claims env user_id remember_me jti) before,
      )
      (refl, refl)

-- Where signing in is optional, a request fails only for an account that is deactivated.
pub optional_user_failure :
    (env : Env) (credentials : Option Text) (s : World) (e : Exception)
    → (get_optional_user env credentials s).0 ≡ err e
    → e ≡ Exception.app (AppError.forbidden "This account has been deactivated.")
unfolding get_current_user get_optional_user
optional_user_failure env none s e h = ground arith
optional_user_failure env (some token) s e h = ground arith

role_in_iff :
    (r : GlobalRole)
    → (role_in r (GlobalRole.admin ∷ GlobalRole.super_admin ∷ []) ≡ true)
      ↔ ((r ≡ GlobalRole.admin) ⊎ (r ≡ GlobalRole.super_admin))
role_in_iff GlobalRole.user = (λ h. cc, λ h. ground arith)
role_in_iff GlobalRole.admin = (λ h. inl refl, λ h. refl)
role_in_iff GlobalRole.super_admin = (λ h. inr refl, λ h. refl)

-- `require_admin` passes the administrators and no one else.
pub require_admin_iff :
    (user : User) (s : World)
    → (require_admin user s ≡ (ok user, s))
      ↔ ((user.global_role ≡ GlobalRole.admin) ⊎ (user.global_role ≡ GlobalRole.super_admin))
unfolding require_admin require_global_role
require_admin_iff user s = (
  λ h. (role_in_iff user.global_role).0 (ground arith),
  λ h. rw ((role_in_iff user.global_role).1 h) refl,
)
