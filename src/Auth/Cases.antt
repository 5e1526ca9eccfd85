-- ===== src/Auth/Cases.antt =====
-- Runs of the recovery, verification and revocation of an account.
use repo_info_backend.Auth.Credentials.{registered}
use repo_info_backend.Auth.Issue.{AuthResult, refresh_row, session_row, stored_hash}
use repo_info_backend.Auth.Login.{LoginRequest, login, logout, refresh}
use repo_info_backend.Auth.Passwords.{
  change_password, forgot_password, reset_password, reset_token, with_password,
}
use repo_info_backend.Auth.Recovery.{
  Redeemable, RejectsRequest, change_password-login, forgot_password-reset_password, reset_outcomes,
}
use repo_info_backend.Auth.Registration.{register, verify_otp}
use repo_info_backend.Auth.Repositories.{
  create_user, ended, get_by_email, get_by_raw, get_by_username, get_refresh_token, get_session,
  get_user, is_live, login_touched, revoked,
}
use repo_info_backend.Auth.Revocation.{
  foreign, logout_everywhere, logout_isolated, revoke_session_foreign, revoke_session_own,
}
use repo_info_backend.Auth.SampleTests.{ada, ada_login, empty, env, later, plain_laws}
use repo_info_backend.Auth.Sessions.{revoke_session}
use repo_info_backend.Auth.Tables.{Mail, RefreshToken, User, UserSession, World}
use repo_info_backend.Auth.Tests.{ada_token, ada_user, after_login, after_register}
use repo_info_backend.Auth.Verification.{
  Pending, RejectsAddress, register-verify_otp, verify_outcomes,
}
use repo_info_backend.Core.Errors.{AppError, Exception}
use repo_info_backend.Core.Security.{
  create_refresh_token, decode_token, generate_otp, hash_token, refresh_claims,
}
use repo_info_backend.Database.Session.{err, ok}
use repo_info_backend.Database.Times.{type_error}
use repo_info_backend.Prelude.{
  Text, [], arith, codes, count, filter, none, refl, some, text_beq, true, ◌++◌, ◌∷◌, ◌≡◌, ◌⊎◌,
}

-- the code that registration mailed
abbrev ada_code : Text
ada_code = generate_otp env

abbrev registered_ada : World
registered_ada = (register env ada none empty).1

register-verify_otp_example :
    let (answer, after) = verify_otp later ada.email ada_code none registered_ada in
    (answer ≡ err type_error)
    × (get_by_email later ada.email after ≡ some (registered env ada empty))
unfolding register create_user get_by_email get_by_username text_beq
register-verify_otp_example =
    register-verify_otp env later ada none none ada_code empty registered_ada _ refl refl

verify_outcomes_example :
    let (r, after) = verify_otp env ada.email ada_code none after_register in
    (after ≡ after_register)
    × ((Pending env ada.email after_register × (r ≡ err type_error))
        ⊎ ((¬ Pending env ada.email after_register) × RejectsAddress r))
verify_outcomes_example = verify_outcomes env ada.email ada_code none after_register

abbrev pub touched : User
touched = login_touched env none ada_user

-- a reset link was asked for
abbrev link : Text
link = reset_token env touched after_login.next_id

forgot_password-reset_password_example :
    ((forgot_password env ada.email after_login).1.sent
      ≡ after_login.sent ++ Mail.password_reset touched.email link ∷ [])
    × (reset_password later link (codes "lovelace") (forgot_password env ada.email after_login).1
        ≡ (err type_error, (forgot_password env ada.email after_login).1))
unfolding after_register after_login register login create_user get_by_email get_by_username
    registered text_beq create_refresh_token
forgot_password-reset_password_example =
    forgot_password-reset_password env later ada.email (codes "lovelace") after_login touched refl
      refl refl

reset_outcomes_example :
    let (r, after) = reset_password later link (codes "lovelace") after_login in
    (after ≡ after_login)
    × ((Redeemable later link after_login × (r ≡ err type_error))
        ⊎ ((¬ Redeemable later link after_login) × RejectsRequest r))
reset_outcomes_example = reset_outcomes later link (codes "lovelace") after_login

abbrev new_login : LoginRequest
new_login = record ada_login { password = codes "lovelace" }

-- the state after a change of the password
unfoldable after_change : World
after_change = (change_password env touched ada.password new_login.password after_login).1

change_password-login_example :
    ((digest : Text) × (stored_hash touched ≡ some digest)
      × (env.crypto.verify ada.password digest ≡ true))
    × (count (is_live 1) after_change.refresh_tokens ≡ 0)
    × (after_change.sessions ≡ after_login.sessions)
    × (after_change.revoked_jtis ≡ after_login.revoked_jtis)
    × ((r : AuthResult) × (s : World) × (login later new_login none after_change ≡ (ok r, s))
        × (r.user ≡ with_password env new_login.password touched))
unfolding after_register after_login register login refresh create_user get_by_email get_by_username
    get_by_raw get_user registered text_beq create_refresh_token refresh_claims decode_token
    hash_token change_password after_change
change_password-login_example =
    change_password-login env later touched ada.password new_login none after_login after_change
      plain_laws refl refl refl refl refl

test_logout_everywhere :
    count (is_live 1) (logout env touched none after_login).1.refresh_tokens ≡ 0
unfolding after_register after_login register login refresh create_user get_by_email get_by_username
    get_by_raw get_user registered text_beq create_refresh_token refresh_claims decode_token
    hash_token
test_logout_everywhere = logout_everywhere env touched after_login

test_logout_isolated :
    filter (foreign 1) (logout env touched (some ada_token) after_login).1.refresh_tokens
    ≡ filter (foreign 1) after_login.refresh_tokens
unfolding after_register after_login register login refresh create_user get_by_email get_by_username
    get_by_raw get_user registered text_beq create_refresh_token refresh_claims decode_token
    hash_token
test_logout_isolated =
    logout_isolated env touched (some ada_token) after_login
      (((λ h. refl), ((λ h. refl), tt)), ((((λ h. refl), ((λ h. refl), tt))), tt))

test_revoke_session_foreign :
    revoke_session env (record touched { id = 2 }) 11 after_login
    ≡ (err (Exception.app (AppError.not_found "Session")), after_login)
unfolding after_register after_login register login refresh create_user get_by_email get_by_username
    get_by_raw get_user registered text_beq create_refresh_token refresh_claims decode_token
    hash_token get_session
test_revoke_session_foreign =
    revoke_session_foreign env (record touched { id = 2 }) 11 after_login _ refl
      (λ e. omega (arith, e))

-- the session of the login, and its refresh token
abbrev her_session : UserSession
her_session = session_row env touched none 11 10

abbrev her_token : RefreshToken
her_token = refresh_row env touched true none 10 ada_token 9 7777000

test_revoke_session_own :
    ((revoke_session env touched 11 after_login).0 ≡ ok tt)
    × (get_session 11 (revoke_session env touched 11 after_login).1 ≡ some (ended env her_session))
    × (get_refresh_token 10 (revoke_session env touched 11 after_login).1
        ≡ some (revoked env none her_token))
unfolding after_register after_login register login refresh create_user get_by_email get_by_username
    get_by_raw get_user registered text_beq create_refresh_token refresh_claims decode_token
    hash_token get_session get_refresh_token
test_revoke_session_own =
    revoke_session_own env touched 11 after_login her_session her_token 10 refl refl refl refl
