-- ===== src/Auth/Continuity.antt =====
-- From `login` to `refresh` in app/services/auth_service.py: the token that a login hands out.
use repo_info_backend.Auth.Credentials.{Authenticated, login_sound}
use repo_info_backend.Auth.Issue.{AuthResult, client_host, refresh_row}
use repo_info_backend.Auth.Login.{LoginRequest, login, refresh}
use repo_info_backend.Auth.Repositories.{by_id, get_by_raw, has_hash, login_touched}
use repo_info_backend.Auth.Rotation.{Presentable, refresh-Presentable}
use repo_info_backend.Auth.Tables.{RefreshToken, Request, User, World}
use repo_info_backend.Core.Security.{
  CryptoLaws, Decoded, Env, TokenType, create_refresh_token, decode_token, hash_token,
  refresh_claims,
}
use repo_info_backend.Database.Session.{Result, err, map_ok, ok}
use repo_info_backend.Database.Times.{type_error}
use repo_info_backend.Prelude.{
  Bool, Option, Text, [], ap, beq_refl, find?, find?-append_none, none, refl, sym, update, ℕ, ◌++◌,
  ◌+◌, ◌<◌, ◌∙◌, ◌∷◌, ◌≡◌,
}

-- The refresh token that a login in this state issues.
abbrev pub login_token : Env → LoginRequest → World → User → Text × ℕ × ℕ
login_token env p s user = create_refresh_token env user.id p.remember_me (s.next_id + 1)

login_writes :
    (env : Env) (p : LoginRequest) (request : Option Request) (s : World) (user : User)
    → Authenticated env p s user
    → let (raw, jti, exp) = login_token env p s user in
      let (r, after) = login env p request s in
      (map_ok (λ (a : AuthResult). a.tokens.refresh_token) r ≡ ok raw)
      × (after.users ≡ update (by_id user.id) (login_touched env (client_host request)) s.users)
      × (after.refresh_tokens
          ≡ s.refresh_tokens
            ++ refresh_row env user p.remember_me request (s.next_id + 1 + 1) raw jti exp ∷ [])
unfolding login
login_writes env p request s user a =
    rw (a.found, a.stored, a.verified, a.enabled) (refl, refl, refl)

decode_refresh :
    (env later : Env) (user_id jti : ℕ) (remember_me : Bool)
    → CryptoLaws env.crypto
    → later.crypto ≡ env.crypto
    → later.settings ≡ env.settings
    → later.now < (refresh_claims env user_id remember_me jti).exp
    → decode_token later (create_refresh_token env user_id remember_me jti).0 TokenType.refresh
      ≡ Decoded.payload (refresh_claims env user_id remember_me jti)
unfolding decode_token create_refresh_token
decode_refresh env later user_id jti remember_me laws same_crypto same_settings before = rw (
  same_crypto,
  same_settings,
  laws.jwt_decode-encode env.settings.secret_key later.now
      (refresh_claims env user_id remember_me jti) before,
)

-- The refresh token that a login hands out is known and not revoked, but presenting it before it expires ends
-- in a TypeError with nothing changed: the session cannot be continued. No stored token has the same digest.
pub login-refresh :
    (env later : Env) (p : LoginRequest) (request again : Option Request) (s s' : World)
    (r : AuthResult)
    → CryptoLaws env.crypto
    → later.crypto ≡ env.crypto
    → later.settings ≡ env.settings
    → later.now < (login_token env p s r.user).2
    → find? (has_hash (env.crypto.sha256 (login_token env p s r.user).0)) s.refresh_tokens ≡ none
    → login env p request s ≡ (ok r, s')
    → Presentable later r.tokens.refresh_token s'
      × (refresh later r.tokens.refresh_token again s' ≡ (err type_error, s'))
unfolding get_by_raw hash_token create_refresh_token
login-refresh env later p request again s s' r laws same_crypto same_settings before unseen h =
    let user = r.user in
    let (raw, jti, exp) = login_token env p s user in
    let row : RefreshToken =
      refresh_row env user p.remember_me request (s.next_id + 1 + 1) raw jti exp in
    let (token, users, tokens) =
      login_writes env p request s user (login_sound env p request s s' r h) in
    let after : (login env p request s).1 ≡ s' = ap (λ (q : Result AuthResult × World). q.1) h in
    let same_token : r.tokens.refresh_token ≡ raw = cc (token, h) in
    let all_tokens : s'.refresh_tokens ≡ s.refresh_tokens ++ row ∷ [] =
      ap (λ (w : World). w.refresh_tokens) (sym after) ∙ tokens in
    let presented : Presentable later r.tokens.refresh_token s' = record {
      claims = refresh_claims env user.id p.remember_me (s.next_id + 1);
      rt = row;
      decoded = rw (
        same_token,
        decode_refresh env later user.id (s.next_id + 1) p.remember_me laws same_crypto
            same_settings before,
      );
      found = rw (
        same_token,
        same_crypto,
        all_tokens,
        find?-append_none (has_hash (env.crypto.sha256 raw)) s.refresh_tokens (row ∷ []) unseen,
        beq_refl (env.crypto.sha256 raw),
      );
      live = refl;
    } in
    (presented, refresh-Presentable later r.tokens.refresh_token again s' presented)
