-- ===== src/Auth/AccessTests.antt =====
-- Runs of the dependencies and of the permission checks.
use repo_info_backend.Auth.Access.{get_current_user, get_optional_user, require_admin}
use repo_info_backend.Auth.Bearer.{
  access_claims, optional_user_failure, refresh_token_refused, require_admin_iff,
  revoke_access_token-get_current_user,
}
use repo_info_backend.Auth.Cases.{touched}
use repo_info_backend.Auth.Credentials.{registered}
use repo_info_backend.Auth.Permissions.{Grants, require_permission, user_has_permission}
use repo_info_backend.Auth.SampleTests.{empty, env, later, plain_laws}
use repo_info_backend.Auth.Scopes.{any_organization_suffices, platform_role_ignored}
use repo_info_backend.Auth.Sessions.{revoke_access_token}
use repo_info_backend.Auth.Tables.{World}
use repo_info_backend.Auth.Tests.{after_login}
use repo_info_backend.Core.Errors.{AppError, Exception}
use repo_info_backend.Core.Security.{
  base_claims, create_access_token, create_refresh_token, decode_token, refresh_claims,
}
use repo_info_backend.Database.Session.{err, ok}
use repo_info_backend.Models.Enums.{GlobalRole}
use repo_info_backend.Prelude.{
  Option, Text, [], arith, codes, false, none, refl, some, text_beq, true, ℕ, ◌↔◌, ◌∷◌, ◌≡◌, ◌≢◌,
  ◌⊎◌,
}

abbrev bearer : Text
bearer = create_access_token env 1 9

revoke_access_token-get_current_user_example :
    get_current_user env (some bearer) (revoke_access_token env 9 900 after_login).1 ≡ (
      err (Exception.app (AppError.token_invalid "Access token has been revoked.")),
      (revoke_access_token env 9 900 after_login).1,
    )
unfolding decode_token create_access_token base_claims
revoke_access_token-get_current_user_example =
    revoke_access_token-get_current_user env env bearer (access_claims env 1 9) 900 after_login refl
      (omega arith)

test_refresh_token_refused :
    (get_current_user later (some (create_refresh_token env 1 true 9).0) after_login
      ≡ (err (Exception.app (AppError.token_invalid "Token is invalid.")), after_login))
    × (get_optional_user later (some (create_refresh_token env 1 true 9).0) after_login
        ≡ (ok none, after_login))
unfolding refresh_claims base_claims
test_refresh_token_refused =
    refresh_token_refused env later 1 9 true after_login plain_laws refl refl (omega arith)

abbrev disabled : World
disabled = record empty {
  db = record empty.db { users = record touched { is_active = false } ∷ [] };
}

test_optional_user_failure :
    Exception.app (AppError.forbidden "This account has been deactivated.")
    ≡ Exception.app (AppError.forbidden "This account has been deactivated.")
unfolding get_optional_user get_current_user decode_token create_access_token base_claims registered
test_optional_user_failure = optional_user_failure env (some bearer) disabled _ refl

test_require_admin_iff :
    (require_admin (record touched { global_role = GlobalRole.admin }) after_login
      ≡ (ok (record touched { global_role = GlobalRole.admin }), after_login))
    ↔ ((GlobalRole.admin ≡ GlobalRole.admin) ⊎ (GlobalRole.admin ≡ GlobalRole.super_admin))
test_require_admin_iff =
    require_admin_iff (record touched { global_role = GlobalRole.admin }) after_login

-- one role that may delete, held on the whole platform or in organization 7
abbrev grants : Option ℕ → Grants
grants scope = record {
  roles = record { id = 1; name = codes "maintainer" } ∷ [];
  permissions = record { id = 1; code = codes "repository:delete" } ∷ [];
  role_permissions = record { role_id = 1; permission_id = 1 } ∷ [];
  user_roles = record { user_id = 1; role_id = 1; organization_id = scope } ∷ [];
}

platform_role_ignored_example :
    user_has_permission (grants none) touched (codes "repository:delete") (some 7) ≡ false
unfolding registered
platform_role_ignored_example =
    platform_role_ignored (grants none) touched (codes "repository:delete") 7 user_not_admin
      ((λ e. refl), tt)
  where
    user_not_admin : GlobalRole.user ≢ GlobalRole.super_admin
    user_not_admin e = cc

test_any_organization_suffices :
    require_permission (grants (some 7)) (codes "repository:delete") touched after_login
    ≡ (ok touched, after_login)
unfolding registered user_has_permission text_beq
test_any_organization_suffices =
    any_organization_suffices (grants (some 7)) touched (codes "repository:delete") 7 after_login
      refl
