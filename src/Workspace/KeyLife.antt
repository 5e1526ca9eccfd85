-- ===== src/Workspace/KeyLife.antt =====
-- The life of an API key (app/services/user_service.py): created, listed, revoked.
use mathlib.Core.List.{reverse-append}
use repo_info_backend.Core.Errors.{AppError, Exception}
use repo_info_backend.Database.Session.{err, map_ok, ok}
use repo_info_backend.Prelude.{
  take, All, Bool, List, Text, [], ap, append_nil, arith, beq_false, codes, count, false, filter,
  find?, find?-append_none, if◌then◌else◌, is_some, nat_beq_refl, nat_eq, none, refl, reverse, some,
  string_eq, text_eq, update, update_id, ℕ, ◌++◌, ◌+◌, ◌==◌, ◌∙◌, ◌∷◌, ◌≡◌, ◌≢◌,
}
use repo_info_backend.Workspace.ApiKeys.{
  ApiKey, ApiKeyCreateRequest, ApiKeyCreated, Keyring, create_api_key, generate_api_key, is_usable,
  list_api_keys, new_key, revoke_api_key, revoked_key, same_key,
}

filter-append :
    (p : ApiKey → Bool) (xs ys : List ApiKey) → filter p (xs ++ ys) ≡ filter p xs ++ filter p ys
filter-append p [] ys = refl
filter-append p (x ∷ xs) ys = ground (arith, filter-append p xs ys)

update-append :
    (q : ApiKey → Bool) (f : ApiKey → ApiKey) (xs ys : List ApiKey)
    → update q f (xs ++ ys) ≡ update q f xs ++ update q f ys
update-append q f [] ys = refl
update-append q f (x ∷ xs) ys = ap (λ zs. (if q x then f x else x) ∷ zs) (update-append q f xs ys)

no_id :
    (n : ℕ) (xs : List ApiKey)
    → All (λ (x : ApiKey). x.id ≢ n) xs
    → (count (λ (x : ApiKey). x.id == n) xs ≡ 0) × (find? (λ (x : ApiKey). x.id == n) xs ≡ none)
no_id n [] h = (refl, refl)
no_id n (x ∷ xs) h =
    let rest = no_id n xs h.1 in rw (beq_false x.id n h.0) (omega (arith, rest.0), rest.1)

-- A key that is created is the first in the list of its owner, as a row that holds the digest of the raw key and its
-- first 12 characters as the prefix; after it has been revoked the list is what it was before. Another user is refused as for a key that does not
-- exist. Neither the prefix nor the digest of the key is taken, and the next id is new.
pub create_api_key-revoke_api_key :
    (sha256 : Text → Text) (token : Text) (now user_id other : ℕ) (payload : ApiKeyCreateRequest)
    (s : Keyring)
    → is_some (find? (same_key (new_key sha256 token user_id payload s.next_id)) s.keys) ≡ false
    → All (λ (x : ApiKey). x.id ≢ s.next_id) s.keys
    → user_id ≢ other
    → (out : ApiKeyCreated) × (t : Keyring) × (create_api_key sha256 token user_id payload s
        ≡ (ok out, t))
      × (out.row.key_hash ≡ sha256 out.raw_key)
      × (out.row.key_prefix ≡ take 12 out.raw_key)
      × ((list_api_keys user_id t).0 ≡ map_ok (λ keys. out.row ∷ keys) (list_api_keys user_id s).0)
      × (revoke_api_key now other out.row.id t
          ≡ (err (Exception.app (AppError.not_found "API key")), t))
      × ((revoke_api_key now user_id out.row.id t).0 ≡ ok tt)
      × ((list_api_keys user_id (revoke_api_key now user_id out.row.id t).1).0
          ≡ (list_api_keys user_id s).0)
unfolding create_api_key revoke_api_key list_api_keys generate_api_key
create_api_key-revoke_api_key sha256 token now user_id other payload s free new differ = (
  record { row = row; raw_key = codes "rik_" ++ token },
  record { keys = s.keys ++ row ∷ []; next_id = s.next_id + 1 },
  rw (free) refl,
  refl,
  refl,
  ap ok (ap reverse listed ∙ reverse-append (filter (is_usable user_id) s.keys) (row ∷ [])),
  rw (found) (rw (beq_false user_id other differ) refl),
  rw (found) (rw (nat_beq_refl user_id) refl),
  rw (found) (rw (nat_beq_refl user_id) (ap (λ keys. ok (reverse keys)) back)),
)
  where
    row : ApiKey
    row = new_key sha256 token user_id payload s.next_id

    found : find? (λ (k : ApiKey). k.id == s.next_id) (s.keys ++ row ∷ []) ≡ some row
    found =
        find?-append_none (λ k. k.id == s.next_id) s.keys (row ∷ []) (no_id s.next_id s.keys new).1
        ∙ rw (nat_beq_refl s.next_id) refl

    listed :
        filter (is_usable user_id) (s.keys ++ row ∷ [])
        ≡ filter (is_usable user_id) s.keys ++ row ∷ []
    listed = filter-append (is_usable user_id) s.keys (row ∷ []) ∙ rw (nat_beq_refl user_id) refl

    back :
        filter
          (is_usable user_id)
          (update (λ k. k.id == s.next_id) (revoked_key now) (s.keys ++ row ∷ []))
        ≡ filter (is_usable user_id) s.keys
    back =
        ap (filter (is_usable user_id))
          (update-append (λ k. k.id == s.next_id) (revoked_key now) s.keys (row ∷ []))
        ∙ (filter-append (is_usable user_id)
              (update (λ k. k.id == s.next_id) (revoked_key now) s.keys) _
            ∙ rw
                (
                  update_id (λ k. k.id == s.next_id) (revoked_key now) s.keys
                      (no_id s.next_id s.keys new).0,
                  nat_beq_refl s.next_id,
                )
                (rw (nat_beq_refl user_id) (append_nil (filter (is_usable user_id) s.keys))))
