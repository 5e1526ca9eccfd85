-- ===== src/Auth/CleanupTests.antt =====
-- The purge of app/workers/tasks/cleanup.py after a login.
use repo_info_backend.Auth.SampleTests.{empty}
use repo_info_backend.Auth.Tables.{RefreshToken, World}
use repo_info_backend.Prelude.{[], codes, false, none, ◌∷◌}

abbrev spent_token : RefreshToken
spent_token = record {
  id = 3;
  user_id = 7;
  token_hash = codes "raw";
  jti = 1;
  expires_at = 50;
  revoked_at = none;
  replaced_by_id = none;
  remember_me = false;
  ip_address = none;
  user_agent = none;
}

abbrev with_token : World
with_token = record empty { db = record empty.db { refresh_tokens = spent_token ∷ [] } }
