-- ===== src/Auth/Tokens.antt =====
-- The refresh tokens of a user after `revoke_all_for_user` of app/repositories/user.py.
use repo_info_backend.Auth.Repositories.{is_live, revoked}
use repo_info_backend.Auth.Tables.{RefreshToken}
use repo_info_backend.Core.Security.{Env}
use repo_info_backend.Prelude.{List, arith, count, count-update_none, none, update, ℕ, ◌≡◌}

pub live-revoked :
    (env : Env) (user_id : ℕ) (rows : List RefreshToken)
    → count (is_live user_id) (update (is_live user_id) (revoked env none) rows) ≡ 0
live-revoked env user_id rows =
    count-update_none (is_live user_id) (is_live user_id) (revoked env none) rows
      (λ x. ground arith) (λ x not_live. not_live)
