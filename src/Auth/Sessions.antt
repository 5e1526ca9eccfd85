-- ===== src/Auth/Sessions.antt =====
-- app/services/auth_service.py: the sessions of a user, and the revocation of access tokens.
use repo_info_backend.Auth.Issue.{text_or}
use repo_info_backend.Auth.Repositories.{
  get_refresh_token, get_session, list_active, revoke, revoke_session_row,
}
use repo_info_backend.Auth.Tables.{User, UserSession, World}
use repo_info_backend.Core.Errors.{AppError}
use repo_info_backend.Core.Security.{Env}
use repo_info_backend.Database.Session.{Action, gets, modify, or_raise, pure, ◌>>=◌, ◌>>◌}
use repo_info_backend.Prelude.{
  Bool, List, Option, Text, codes, filter, if◌then◌else◌, map, nat_eq, none, not, some, string_eq,
  text_eq, ℕ, ◌+◌, ◌==◌, ◌∷◌,
}

pub record SessionOut : Type 0 where
  pub id : ℕ
  pub device : Text
  pub location : Option Text
  pub last_active : ℕ
  pub current : Bool

abbrev pub session_out : UserSession → SessionOut
session_out s = record {
  id = s.id;
  device = text_or s.device_name (codes "Unknown device");
  location = s.location;
  last_active = s.last_active_at;
  current = s.is_current;
}

unfoldable pub list_sessions : User → Action World (List SessionOut)
list_sessions user = do sessions ← gets (list_active user.id); pure (map session_out sessions)

abbrev owned_session : User → Option UserSession → Option UserSession
owned_session user none = none
owned_session user (some x) = if x.user_id == user.id then some x else none

-- the refresh token of a session, if the row is still there
revoke_linked : Env → Option ℕ → Action World (Unit {0})
unfolding revoke
revoke_linked env none = pure tt
revoke_linked env (some id) = do
  rt ← gets (get_refresh_token id)
  elim rt [ none ↦ pure tt | some t ↦ revoke env t none ]

unfoldable pub revoke_session : Env → User → ℕ → Action World (Unit {0})
unfolding revoke_session_row revoke_linked
revoke_session env user session_id = do
  session ←
      or_raise (owned_session user (← gets (get_session session_id))) (AppError.not_found "Session")
  revoke_session_row env session.id
  revoke_linked env session.refresh_token_id

-- `setex` replaces the key with its time
unfoldable pub revoke_access_token : Env → ℕ → ℕ → Action World (Unit {0})
revoke_access_token env jti ttl_seconds = modify (λ s. record s {
  revoked_jtis =
      (jti, env.now + ttl_seconds) ∷ filter (λ (k : ℕ × ℕ). not (k.0 == jti)) s.revoked_jtis;
})
