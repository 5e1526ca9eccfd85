-- ===== src/Core/Security.antt =====
-- app/core/security.py: token claims, password hashes and one-time codes. The libraries behind it
-- (pyjwt, passlib, hashlib, secrets) are the record `Crypto`; times are in seconds.
use repo_info_backend.Core.Config.{Settings}
use repo_info_backend.Prelude.{
  Bool, Eq, String, Text, [], count, enum_eq, false, if◌then◌else◌, nat_eq, refl, string_eq, suc,
  text_eq, true, zero, ℕ, ◌!=◌, ◌%◌, ◌*◌, ◌+◌, ◌<◌, ◌==◌, ◌∷◌, ◌≡◌,
}

pub data TokenType : Type 0 where
  access refresh email_verification password_reset : TokenType

abbrev token_type_index : TokenType → ℕ
token_type_index TokenType.access = 0
token_type_index TokenType.refresh = 1
token_type_index TokenType.email_verification = 2
token_type_index TokenType.password_reset = 3

abbrev token_type_at : ℕ → TokenType
token_type_at zero = TokenType.access
token_type_at (suc zero) = TokenType.refresh
token_type_at (suc (suc zero)) = TokenType.email_verification
token_type_at _ = TokenType.password_reset

pub token_type_at-index : (t : TokenType) → token_type_at (token_type_index t) ≡ t
token_type_at-index TokenType.access = refl
token_type_at-index TokenType.refresh = refl
token_type_at-index TokenType.email_verification = refl
token_type_at-index TokenType.password_reset = refl

instance abbrev pub token_type_eq : Eq TokenType
token_type_eq = enum_eq token_type_index token_type_at token_type_at-index

pub record Claims : Type 0 where
  pub sub : ℕ
  pub token_type : TokenType
  pub iat : ℕ
  pub exp : ℕ
  pub iss : String
  pub jti : ℕ

-- The outcome of `jwt.decode`: the payload, `ExpiredSignatureError`, or another `PyJWTError`.
pub data Decoded : Type 0 where
  payload : Claims → Decoded
  expired : Decoded
  invalid : Decoded

pub record Crypto : Type 0 where
  -- `pwd_context.hash`, `pwd_context.verify`
  pub hash : Text → Text
  pub verify : Text → Text → Bool
  -- `hashlib.sha256(text.encode()).hexdigest()`
  pub sha256 : Text → Text
  -- `jwt.encode` under the secret; `jwt.decode` under the secret, for the issuer, at a time
  pub jwt_encode : String → Claims → Text
  pub jwt_decode : String → String → ℕ → Text → Decoded

-- What the code relies on: a password without a null character, which bcrypt refuses, verifies against its own
-- hash, which is no empty text; and a token that was signed with the secret decodes to its claims until it expires.
pub record CryptoLaws (c : Crypto) : Type 0 where
  pub verify-hash : (p : Text) → count (λ x. x == 0) p ≡ 0 → c.verify p (c.hash p) ≡ true
  pub hash_nonempty : (p : Text) → (c.hash p == []) ≡ false
  pub jwt_decode-encode :
      (secret : String) (now : ℕ) (claims : Claims)
      → now < claims.exp
      → c.jwt_decode secret claims.iss now (c.jwt_encode secret claims) ≡ Decoded.payload claims

-- What a handler reads from outside the database: the settings, the libraries, the clock (which
-- stands still during one handler), the random digits, and `str.lower`.
pub record Env : Type 0 where
  pub settings : Settings
  pub crypto : Crypto
  pub now : ℕ
  pub draw : ℕ → ℕ
  pub lower : Text → Text

unfoldable pub base_claims : Env → ℕ → TokenType → ℕ → ℕ → Claims
base_claims env subject token_type expires_delta jti = record {
  sub = subject;
  token_type = token_type;
  iat = env.now;
  exp = env.now + expires_delta;
  iss = env.settings.jwt_issuer;
  jti = jti;
}

abbrev pub minutes : ℕ → ℕ
minutes n = n * 60

abbrev pub days : ℕ → ℕ
days n = n * 86400

unfoldable pub create_access_token : Env → ℕ → ℕ → Text
unfolding base_claims
create_access_token env user_id jti = env.crypto.jwt_encode env.settings.secret_key (
    base_claims env user_id TokenType.access (minutes env.settings.jwt_access_token_expire_minutes)
      jti)

-- The claims of a refresh token; `remember_me` chooses the lifetime.
unfoldable pub refresh_claims : Env → ℕ → Bool → ℕ → Claims
unfolding base_claims
refresh_claims env user_id remember_me jti =
    base_claims env user_id TokenType.refresh
      (days (
        if remember_me
        then env.settings.jwt_remember_me_refresh_days
        else env.settings.jwt_refresh_token_expire_days))
      jti

-- `(token, claims["jti"], claims["exp"])`
unfoldable pub create_refresh_token : Env → ℕ → Bool → ℕ → Text × ℕ × ℕ
unfolding refresh_claims
create_refresh_token env user_id remember_me jti =
    let claims = refresh_claims env user_id remember_me jti in
    (env.crypto.jwt_encode env.settings.secret_key claims, claims.jti, claims.exp)

unfoldable pub create_special_purpose_token : Env → ℕ → TokenType → ℕ → ℕ → Text
unfolding base_claims
create_special_purpose_token env user_id token_type expires_delta jti =
    env.crypto.jwt_encode env.settings.secret_key
      (base_claims env user_id token_type expires_delta jti)

abbrev expect_type : TokenType → Decoded → Decoded
expect_type expected Decoded.expired = Decoded.expired
expect_type expected Decoded.invalid = Decoded.invalid
expect_type expected (Decoded.payload claims) =
    if claims.token_type != expected then Decoded.invalid else Decoded.payload claims

unfoldable pub decode_token : Env → Text → TokenType → Decoded
decode_token env token expected =
    expect_type expected
      (env.crypto.jwt_decode env.settings.secret_key env.settings.jwt_issuer env.now token)

unfoldable pub hash_token : Env → Text → Text
hash_token env raw = env.crypto.sha256 raw

-- `length` draws from "0123456789"
unfoldable pub otp_digits : (ℕ → ℕ) → ℕ → Text
otp_digits draw zero = []
otp_digits draw (suc n) = (b'0' + draw n % 10) ∷ otp_digits draw n

unfoldable pub generate_otp : Env → Text
unfolding otp_digits
generate_otp env = otp_digits env.draw env.settings.otp_length
