-- ===== src/Auth/Issue.antt =====
-- app/services/auth_service.py: `_issue_tokens`, which registration, login, rotation and the OAuth
-- callback end with, and the helpers that the service methods share.
use repo_info_backend.Auth.Repositories.{uuid4}
use repo_info_backend.Auth.Tables.{Mail, RefreshToken, Request, User, UserSession, World}
use repo_info_backend.Core.Security.{Env, create_access_token, create_refresh_token, minutes}
use repo_info_backend.Database.Session.{Action, modify, pure, ◌>>=◌, ◌>>◌}
use repo_info_backend.Prelude.{
  Bool, Option, Text, [], codes, if◌then◌else◌, nat_eq, none, some, string_eq, text_eq, true, ℕ,
  ◌*◌, ◌++◌, ◌+◌, ◌==◌, ◌∷◌,
}

pub record AuthTokens : Type 0 where
  pub access_token : Text
  pub refresh_token : Text
  -- epoch milliseconds
  pub expires_at : ℕ

-- `AuthResult`; the user stands for `_user_out`, which copies columns
pub record AuthResult : Type 0 where
  pub user : User
  pub tokens : AuthTokens

abbrev pub client_host : Option Request → Option Text
client_host none = none
client_host (some request) = request.client_host

abbrev pub user_agent : Option Request → Option Text
user_agent none = none
user_agent (some request) = request.user_agent

-- `value or default` on a text, where the empty text is false
abbrev pub text_or : Option Text → Text → Text
text_or none d = d
text_or (some []) d = d
text_or (some (c ∷ cs)) d = c ∷ cs

-- The row that `_issue_tokens` adds for the refresh token.
abbrev pub refresh_row : Env → User → Bool → Option Request → ℕ → Text → ℕ → ℕ → RefreshToken
refresh_row env user remember_me request id raw jti expires_at = record {
  id = id;
  user_id = user.id;
  token_hash = env.crypto.sha256 raw;
  jti = jti;
  expires_at = expires_at;
  revoked_at = none;
  replaced_by_id = none;
  remember_me = remember_me;
  ip_address = client_host request;
  user_agent = user_agent request;
}

abbrev pub session_row : Env → User → Option Request → ℕ → ℕ → UserSession
session_row env user request id refresh_token_id = record {
  id = id;
  user_id = user.id;
  refresh_token_id = some refresh_token_id;
  device_name = some (text_or (user_agent request) (codes "Unknown"));
  user_agent = user_agent request;
  ip_address = client_host request;
  location = none;
  is_current = true;
  last_active_at = env.now;
  revoked_at = none;
}

abbrev add_refresh_token : RefreshToken → Action World (Unit {0})
add_refresh_token rt =
    modify (λ s. record s { db = record s.db { refresh_tokens = s.refresh_tokens ++ rt ∷ [] } })

abbrev add_session : UserSession → Action World (Unit {0})
add_session session =
    modify (λ s. record s { db = record s.db { sessions = s.sessions ++ session ∷ [] } })

unfoldable pub issue_tokens : Env → User → Bool → Option Request → Action World AuthTokens
unfolding create_access_token create_refresh_token
issue_tokens env user remember_me request = do
  access_jti ← uuid4
  let access_token = create_access_token env user.id access_jti
  refresh_jti ← uuid4
  let issued = create_refresh_token env user.id remember_me refresh_jti
  id ← uuid4
  add_refresh_token (refresh_row env user remember_me request id issued.0 issued.1 issued.2)
  session_id ← uuid4
  add_session (session_row env user request session_id id)
  pure (record {
    access_token = access_token;
    refresh_token = issued.0;
    expires_at = (env.now + minutes env.settings.jwt_access_token_expire_minutes) * 1000;
  })

abbrev pub send : Mail → Action World (Unit {0})
send mail = modify (λ s. record s { sent = s.sent ++ mail ∷ [] })

-- `not user.hashed_password`: no password, or the empty text
abbrev pub stored_hash : User → Option Text
stored_hash user = elim user.hashed_password [
  | none ↦ none
  | some h ↦ if h == [] then none else some h
]
