-- ===== src/Workspace/ApiKeys.antt =====
-- API keys: `create_api_key`, `list_api_keys` and `revoke_api_key` of app/services/user_service.py, with
-- `generate_api_key` of app/core/security.py. The random part of a key is an argument; the rows stand in
-- the order in which they were added; nothing writes `last_used_at`.
use repo_info_backend.Core.Errors.{AppError, Exception}
use repo_info_backend.Database.Session.{Action, err, gets, modify, ok, or_raise, ◌>>=◌}
use repo_info_backend.Prelude.{
  Bool, List, Option, Text, [], codes, filter, find?, if◌then◌else◌, is_none, is_some, nat_eq, none,
  reverse, some, string_eq, take, text_eq, update, ℕ, ◌&&◌, ◌++◌, ◌+◌, ◌==◌, ◌||◌, ◌∷◌,
}

pub record ApiKey : Type 0 where
  pub id : ℕ
  pub user_id : ℕ
  pub name : Text
  pub key_prefix : Text
  pub key_hash : Text
  pub scopes : List Text
  pub expires_at : Option ℕ
  pub revoked_at : Option ℕ

pub record Keyring : Type 0 where
  pub keys : List ApiKey
  pub next_id : ℕ

pub record ApiKeyCreateRequest : Type 0 where
  pub name : Text
  pub scopes : List Text
  pub expires_at : Option ℕ

-- the row, and the raw key that only the creator is shown
pub record ApiKeyCreated : Type 0 where
  pub row : ApiKey
  pub raw_key : Text

-- (raw, prefix, hash), of `secrets.token_urlsafe(32)`
unfoldable pub generate_api_key : (Text → Text) → Text → Text × Text × Text
generate_api_key sha256 token = let raw = codes "rik_" ++ token in (raw, take 12 raw, sha256 raw)

abbrev pub new_key : (Text → Text) → Text → ℕ → ApiKeyCreateRequest → ℕ → ApiKey
unfolding generate_api_key
new_key sha256 token user_id payload id = record {
  id = id;
  user_id = user_id;
  name = payload.name;
  key_prefix = (generate_api_key sha256 token).1;
  key_hash = (generate_api_key sha256 token).2;
  scopes = payload.scopes;
  expires_at = payload.expires_at;
  revoked_at = none;
}

-- the prefix and the hash are unique
abbrev pub same_key : ApiKey → ApiKey → Bool
same_key k x = x.key_prefix == k.key_prefix || x.key_hash == k.key_hash

unfoldable pub create_api_key :
    (Text → Text) → Text → ℕ → ApiKeyCreateRequest → Action Keyring ApiKeyCreated
unfolding generate_api_key
create_api_key sha256 token user_id payload s =
    let row = new_key sha256 token user_id payload s.next_id in
    if is_some (find? (same_key row) s.keys) then (err Exception.integrity, s) else (
      ok (record { row = row; raw_key = (generate_api_key sha256 token).0 }),
      record { keys = s.keys ++ row ∷ []; next_id = s.next_id + 1 },
    )

abbrev pub is_usable : ℕ → ApiKey → Bool
is_usable user_id k = k.user_id == user_id && is_none k.revoked_at

-- `order_by(ApiKey.created_at.desc())`
unfoldable pub list_api_keys : ℕ → Action Keyring (List ApiKey)
list_api_keys user_id = gets (λ s. reverse (filter (is_usable user_id) s.keys))

abbrev owned_key : ℕ → Option ApiKey → Option ApiKey
owned_key user_id none = none
owned_key user_id (some k) = if k.user_id == user_id then some k else none

abbrev pub revoked_key : ℕ → ApiKey → ApiKey
revoked_key now k = record k { revoked_at = some now }

unfoldable pub revoke_api_key : ℕ → ℕ → ℕ → Action Keyring (Unit {0})
revoke_api_key now user_id key_id = do
  found ← gets (λ s. owned_key user_id (find? (λ k. k.id == key_id) s.keys))
  row ← or_raise found (AppError.not_found "API key")
  modify (λ s. record s { keys = update (λ k. k.id == row.id) (revoked_key now) s.keys })
