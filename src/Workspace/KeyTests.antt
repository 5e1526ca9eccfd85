-- ===== src/Workspace/KeyTests.antt =====
-- API keys on a small table: app/services/user_service.py.
use repo_info_backend.Core.Errors.{AppError, Exception}
use repo_info_backend.Database.Session.{err, map_ok, ok}
use repo_info_backend.Prelude.{[], arith, codes, none, refl, take, text_beq, ◌∷◌, ◌≡◌}
use repo_info_backend.Workspace.ApiKeys.{
  ApiKey, ApiKeyCreateRequest, ApiKeyCreated, Keyring, create_api_key, generate_api_key,
  list_api_keys, new_key, revoke_api_key,
}
use repo_info_backend.Workspace.KeyLife.{create_api_key-revoke_api_key}

abbrev key_request : ApiKeyCreateRequest
key_request = record { name = codes "ci"; scopes = []; expires_at = none }

abbrev old_key : ApiKey
old_key = new_key (λ t. t) (codes "first") 7 key_request 1

abbrev keyring : Keyring
keyring = record { keys = old_key ∷ []; next_id = 2 }

create_api_key-revoke_api_key_example :
    (out : ApiKeyCreated) × (t : Keyring) × (create_api_key
        (λ t. t)
        (codes "second")
        7
        key_request
        keyring
      ≡ (ok out, t))
    × (out.row.key_hash ≡ out.raw_key)
    × (out.row.key_prefix ≡ take 12 out.raw_key)
    × ((list_api_keys 7 t).0 ≡ map_ok (λ keys. out.row ∷ keys) (list_api_keys 7 keyring).0)
    × (revoke_api_key 90 8 out.row.id t ≡ (err (Exception.app (AppError.not_found "API key")), t))
    × ((revoke_api_key 90 7 out.row.id t).0 ≡ ok tt)
    × ((list_api_keys 7 (revoke_api_key 90 7 out.row.id t).1).0 ≡ (list_api_keys 7 keyring).0)
unfolding generate_api_key text_beq
create_api_key-revoke_api_key_example =
    create_api_key-revoke_api_key (λ t. t) (codes "second") 90 7 8 key_request keyring refl
      ((λ e. omega (arith, e)), tt) (λ e. omega (arith, e))
