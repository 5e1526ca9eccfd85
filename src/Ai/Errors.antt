-- ===== src/Ai/Errors.antt =====
-- app/ai/providers/errors.py: which exceptions of a provider's library mean that another provider may do.
use repo_info_backend.Prelude.{
  Bool, List, String, Text, [], codes, false, has_part, nat_eq, string_eq, suc, text_eq, zero, ℕ,
  ◌==◌, ◌||◌, ◌∷◌,
}

-- What `getattr(exc, name, None)` finds: nothing, an integer, or some other value.
pub data Attribute : Type 0 where
  missing : Attribute
  int : ℕ → Attribute
  other : Attribute

pub record ProviderError : Type 0 where
  pub status_code : Attribute
  pub code : Attribute
  -- `type(exc).__name__`, `str(exc)`
  pub class_name : Text
  pub message : Text

-- `getattr(exc, "status_code", None) or getattr(exc, "code", None)`: 0 is false
abbrev pub code_of : Attribute → Attribute → Attribute
code_of Attribute.missing code = code
code_of (Attribute.int zero) code = code
code_of (Attribute.int (suc n)) code = Attribute.int (suc n)
code_of Attribute.other code = Attribute.other

-- `isinstance(status_code, int) and status_code in {a, b}`
abbrev is_one_of : Attribute → ℕ → ℕ → Bool
is_one_of Attribute.missing a b = false
is_one_of (Attribute.int n) a b = n == a || n == b
is_one_of Attribute.other a b = false

-- `any(part in text for part in parts)`
abbrev has_any : List String → Text → Bool
has_any [] text = false
has_any (part ∷ parts) text = has_part (codes part) text || has_any parts text

abbrev quota_class_name_hints : List String
quota_class_name_hints = "RateLimitError" ∷ "ResourceExhausted" ∷ "InsufficientQuota" ∷ []

abbrev quota_message_keywords : List String
quota_message_keywords =
    "insufficient_quota" ∷ "quota" ∷ "credit" ∷ "billing" ∷ "rate limit" ∷ "resource_exhausted"
    ∷ "resource exhausted" ∷ []

abbrev auth_class_name_hints : List String
auth_class_name_hints = "AuthenticationError" ∷ "PermissionDeniedError" ∷ "PermissionDenied" ∷ []

abbrev auth_message_keywords : List String
auth_message_keywords = "api-key" ∷ "api_key" ∷ "authentication" ∷ "unauthorized" ∷ []

unfoldable pub is_quota_exhausted : (Text → Text) → ProviderError → Bool
is_quota_exhausted lower e =
    is_one_of (code_of e.status_code e.code) 402 429
    || has_any quota_class_name_hints e.class_name
    || has_any quota_message_keywords (lower e.message)

unfoldable pub is_authentication_error : (Text → Text) → ProviderError → Bool
is_authentication_error lower e =
    is_one_of (code_of e.status_code e.code) 401 403
    || has_any auth_class_name_hints e.class_name
    || has_any auth_message_keywords (lower e.message)

unfoldable pub is_provider_unavailable : (Text → Text) → ProviderError → Bool
unfolding is_quota_exhausted is_authentication_error
is_provider_unavailable lower e = is_quota_exhausted lower e || is_authentication_error lower e
