-- ===== src/Core/Config.antt =====
-- app/core/config.py: the settings that the modelled code reads.
use repo_info_backend.Prelude.{Bool, List, String, Text, [], codes, false, ℕ, ◌∷◌}

pub record Settings : Type 0 where
  pub secret_key : String
  pub jwt_access_token_expire_minutes : ℕ
  pub jwt_refresh_token_expire_days : ℕ
  pub jwt_remember_me_refresh_days : ℕ
  pub jwt_issuer : String
  pub password_reset_token_expire_minutes : ℕ
  pub otp_expire_minutes : ℕ
  pub otp_length : ℕ
  pub default_ai_provider : String
  pub ai_provider_fallback_order : List Text
  pub is_production : Bool

-- The defaults of the class; `SECRET_KEY` has none and comes from the environment.
abbrev pub default_settings : Settings
default_settings = record {
  secret_key = "0123456789abcdef0123456789abcdef";
  jwt_access_token_expire_minutes = 15;
  jwt_refresh_token_expire_days = 30;
  jwt_remember_me_refresh_days = 90;
  jwt_issuer = "repoinfo-api";
  password_reset_token_expire_minutes = 30;
  otp_expire_minutes = 10;
  otp_length = 6;
  default_ai_provider = "claude";
  ai_provider_fallback_order = codes "openai" ∷ codes "openrouter" ∷ [];
  is_production = false;
}
