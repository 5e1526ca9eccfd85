-- ===== src/Auth/Tests.antt =====
-- Runs of the authentication service on a small database.
use repo_info_backend.Auth.Continuity.{login-refresh, login_token}
use repo_info_backend.Auth.Credentials.{
  Authenticated, login_complete, login_sound, login_uniform, register-login, registered,
}
use repo_info_backend.Auth.Issue.{AuthResult}
use repo_info_backend.Auth.Login.{login, logout, refresh}
use repo_info_backend.Auth.Registration.{register}
use repo_info_backend.Auth.Repositories.{
  create_user, get_by_email, get_by_raw, get_by_username, get_user, is_live,
}
use repo_info_backend.Auth.Rotation.{Presentable, RejectsToken, refresh_outcomes, refresh_reuse}
use repo_info_backend.Auth.SampleTests.{ada, ada_login, empty, env, later, plain_laws}
use repo_info_backend.Auth.Tables.{User, World, rollback}
use repo_info_backend.Core.Errors.{AppError, Exception}
use repo_info_backend.Core.Security.{create_refresh_token, decode_token, hash_token, refresh_claims}
use repo_info_backend.Database.Session.{Result, err, in_transaction, ok}
use repo_info_backend.Database.Times.{type_error}
use repo_info_backend.Prelude.{
  Text, arith, codes, count, inr, length, none, refl, text_beq, ◌≡◌, ◌⊎◌,
}

abbrev state {ℓ} : {A : Type ℓ} → Result A × World → World
state p = p.1

unfoldable pub after_register : World
after_register = (register env ada none empty).1

abbrev pub ada_user : User
ada_user = registered env ada empty

-- the refresh token of the first login
abbrev pub ada_token : Text
ada_token = (login_token env ada_login after_register ada_user).0

unfoldable pub after_login : World
after_login = (login env ada_login none after_register).1

test_register : length after_login.refresh_tokens ≡ 2
unfolding after_register after_login register login create_user get_by_email get_by_username
    registered text_beq
test_register = refl

register-login_example :
    (t : AuthResult) × (s : World) × (login later ada_login none after_register ≡ (ok t, s))
    × (t.user ≡ ada_user)
unfolding after_register register create_user get_by_email get_by_username text_beq
register-login_example =
    register-login env later ada ada_login none none empty after_register _ plain_laws refl refl
      refl refl refl refl

login-refresh_example :
    Presentable later ada_token after_login
    × (refresh later ada_token none after_login ≡ (err type_error, after_login))
unfolding after_register after_login register login create_user get_by_email get_by_username
    get_user registered text_beq create_refresh_token refresh_claims
login-refresh_example =
    login-refresh env later ada_login none none after_register after_login
      (record { user = ada_user; tokens = _ }) plain_laws refl refl (omega arith) refl refl

refresh_outcomes_example :
    let (r, after) = in_transaction rollback (refresh later ada_token none) after_login in
    (after ≡ after_login)
    × ((Presentable later ada_token after_login × (r ≡ err type_error))
        ⊎ ((¬ Presentable later ada_token after_login) × RejectsToken r))
refresh_outcomes_example = refresh_outcomes later ada_token none after_login

-- the state in which every token has been revoked
unfoldable pub after_logout : World
after_logout = (logout env ada_user none after_login).1

refresh_reuse_example :
    RejectsToken (refresh later ada_token none after_logout).0
    × (count (is_live 1) (refresh later ada_token none after_logout).1.refresh_tokens ≡ 0)
unfolding after_register after_login register login refresh create_user get_by_email get_by_username
    get_by_raw get_user registered text_beq create_refresh_token refresh_claims decode_token
    hash_token after_logout logout
refresh_reuse_example = refresh_reuse later ada_token none after_logout _ _ _ refl refl refl

login_sound_example : Authenticated env ada_login after_register ada_user
unfolding after_register after_login register login refresh create_user get_by_email get_by_username
    get_by_raw get_user registered text_beq create_refresh_token refresh_claims decode_token
    hash_token
login_sound_example =
    login_sound env ada_login none after_register after_login
      (record { user = ada_user; tokens = _ }) refl

test_login_complete :
    (r : AuthResult) × (s : World) × (login env ada_login none after_register ≡ (ok r, s))
    × (r.user ≡ ada_user)
unfolding after_register after_login register login refresh create_user get_by_email get_by_username
    get_by_raw get_user registered text_beq create_refresh_token refresh_claims decode_token
    hash_token
test_login_complete = login_complete env ada_login none after_register ada_user (record {
  digest = env.crypto.hash ada.password;
  found = refl;
  stored = refl;
  verified = refl;
  enabled = refl;
})

test_login_uniform :
    login env (record ada_login { password = codes "lovelace" }) none after_register
    ≡ (err (Exception.app AppError.invalid_credentials), after_register)
unfolding after_register after_login register login refresh create_user get_by_email get_by_username
    get_by_raw get_user registered text_beq create_refresh_token refresh_claims decode_token
    hash_token
test_login_uniform =
    login_uniform env (record ada_login { password = codes "lovelace" }) none after_register
      (inr (_, _, refl, refl, refl))
