-- ===== src/Auth/SampleTests.antt =====
-- The accounts of the tests of app/services/auth_service.py, with libraries that are functions: a digest
-- is the text itself, and a token the list of its claims.
use repo_info_backend.Auth.Login.{LoginRequest}
use repo_info_backend.Auth.Registration.{RegisterRequest}
use repo_info_backend.Auth.Tables.{World}
use repo_info_backend.Core.Config.{default_settings}
use repo_info_backend.Core.Security.{
  Claims, Crypto, CryptoLaws, Decoded, Env, TokenType, token_type_eq,
}
use repo_info_backend.Prelude.{
  String, Text, [], beq_false, beq_refl, codes, if◌then◌else◌, ltb, lt→ltb, nat_eq, refl, string_eq,
  suc, text_eq, true, zero, ℕ, ◌<◌, ◌==◌, ◌∷◌, ◌≡◌,
}

abbrev pub kind_of : TokenType → ℕ
kind_of TokenType.access = 0
kind_of TokenType.refresh = 1
kind_of TokenType.email_verification = 2
kind_of TokenType.password_reset = 3

abbrev pub issue_claims : String → Claims → Text
issue_claims secret c = c.sub ∷ kind_of c.token_type ∷ c.iat ∷ c.exp ∷ c.jti ∷ []

abbrev pub type_of : ℕ → TokenType
type_of zero = TokenType.access
type_of (suc zero) = TokenType.refresh
type_of (suc (suc zero)) = TokenType.email_verification
type_of (suc (suc (suc n))) = TokenType.password_reset

pub type_of-kind_of : (k : TokenType) → type_of (kind_of k) ≡ k
type_of-kind_of TokenType.access = refl
type_of-kind_of TokenType.refresh = refl
type_of-kind_of TokenType.email_verification = refl
type_of-kind_of TokenType.password_reset = refl

abbrev pub read_claims : String → String → ℕ → Text → Decoded
read_claims secret iss now (sub ∷ kind ∷ iat ∷ exp ∷ jti ∷ []) =
    if ltb now exp
    then Decoded.payload (record {
      sub = sub;
      token_type = type_of kind;
      iat = iat;
      exp = exp;
      iss = iss;
      jti = jti;
    })
    else Decoded.expired
read_claims secret iss now _ = Decoded.invalid

abbrev pub plain : Crypto
plain = record {
  hash = λ p. 0 ∷ p;
  verify = λ p h. (0 ∷ p) == h;
  sha256 = λ t. t;
  jwt_encode = issue_claims;
  jwt_decode = read_claims;
}

pub read-issue :
    (secret : String) (now : ℕ) (c : Claims)
    → now < c.exp
    → read_claims secret c.iss now (issue_claims secret c) ≡ Decoded.payload c
read-issue secret now c h = rw (lt→ltb now c.exp h, type_of-kind_of c.token_type)

pub plain_laws : CryptoLaws plain
plain_laws = record {
  verify-hash = λ p h. beq_refl (0 ∷ p);
  hash_nonempty = λ p. beq_false (0 ∷ p) [] (λ e. cc);
  jwt_decode-encode = read-issue;
}

abbrev pub env : Env
env = record {
  settings = default_settings;
  crypto = plain;
  now = 1000;
  draw = λ n. n;
  lower = λ t. t;
}

-- the same server an hour later
abbrev pub later : Env
later = record env { now = 4600 }

abbrev pub empty : World
empty = record {
  db = record {
    users = [];
    refresh_tokens = [];
    sessions = [];
    otps = [];
    password_resets = [];
    audit_logs = [];
    notifications = [];
    next_id = 1;
  };
  sent = [];
  revoked_jtis = [];
}

abbrev pub ada : RegisterRequest
ada = record {
  display_name = codes "Ada";
  username = codes "ada";
  email = codes "ada@example.org";
  password = codes "enchantress";
}

abbrev pub ada_login : LoginRequest
ada_login = record {
  email = codes "ada@example.org";
  password = codes "enchantress";
  remember_me = true;
}
