-- ===== src/Auth/Callback.antt =====
-- app/services/oauth_service.py: `handle_callback`, with the table of linked accounts and the states in
-- Redis. The exchange of the code for a profile is an argument, as is the encryption of tokens; the raw
-- profile is not kept.
use repo_info_backend.Auth.Issue.{AuthResult, client_host, issue_tokens, text_or}
use repo_info_backend.Auth.Login.{login}
use repo_info_backend.Auth.Repositories.{
  create_user, get_by_email, get_user, touch_login, uuid4, write_user,
}
use repo_info_backend.Auth.Tables.{Request, User, World}
use repo_info_backend.Auth.Usernames.{choose_username}
use repo_info_backend.Core.Errors.{AppError, Exception}
use repo_info_backend.Core.Security.{Env}
use repo_info_backend.Database.Session.{
  Action, Result, gets, modify, pure, raise_if, throw, ◌>>=◌, ◌>>◌,
}
use repo_info_backend.Models.Enums.{OauthProvider, oauth_provider_eq}
use repo_info_backend.Prelude.{
  Bool, List, Option, Text, [], codes, false, filter, find?, if◌then◌else◌, map, nat_eq, none, not,
  some, split_at, string_eq, take, text_eq, true, update, ℕ, ◌&&◌, ◌++◌, ◌==◌, ◌∷◌,
}

pub record OauthAccount : Type 0 where
  pub id : ℕ
  pub user_id : ℕ
  pub provider : OauthProvider
  pub provider_account_id : Text
  pub access_token_encrypted : Text
  pub refresh_token_encrypted : Option Text
  pub scopes : List Text

-- the accounts, the linked ones, and the keys `oauth_state:…` in Redis
pub record OauthWorld : Type 0 where
  pub world : World
  pub accounts : List OauthAccount
  pub states : List (Text × OauthProvider)

-- what is read of the profile of Google, and of that of GitHub
pub data Profile : Type 0 where
  google : (sub email : Text) (name picture : Option Text) → Profile
  github : (id login : Text) (email name avatar_url : Option Text) → Profile

pub record Fetched : Type 0 where
  pub profile : Profile
  pub access_token : Text
  pub refresh_token : Option Text
  pub scope : Option Text

pub record OauthEnv : Type 0 where
  pub env : Env
  pub fetch : OauthProvider → Text → Result Fetched
  pub encrypt : Text → Text

abbrev pub account_id : Profile → Text
account_id (Profile.google sub email name picture) = sub
account_id (Profile.github id login email name avatar_url) = id

abbrev pub profile_email : Profile → Text
profile_email (Profile.google sub email name picture) = email
profile_email (Profile.github id login email name avatar_url) =
    text_or email (login ++ codes "@users.noreply.github.com")

-- `email.split("@")[0]`
abbrev pub local_part : Text → Text
local_part [] = []
local_part (c ∷ cs) = let rest = local_part cs in if c == b'@' then [] else c ∷ rest

abbrev pub display_name : Profile → Text
display_name (Profile.google sub email name picture) = text_or name (local_part email)
display_name (Profile.github id login email name avatar_url) = text_or name login

abbrev pub avatar : Profile → Option Text
avatar (Profile.google sub email name picture) = picture
avatar (Profile.github id login email name avatar_url) = avatar_url

-- `(profile.get("login") or email.split("@")[0]).replace(" ", "-")`; a profile of Google has no login
abbrev pub base_username : Profile → Text
base_username (Profile.google sub email name picture) =
    map (λ c. if c == b' ' then b'-' else c) (local_part email)
base_username (Profile.github id login email name avatar_url) =
    map (λ c. if c == b' ' then b'-' else c)
      (text_or (some login)
        (local_part (profile_email (Profile.github id login email name avatar_url))))

-- an action on the accounts
abbrev pub in_world {ℓ} :
    {A : Type ℓ} → (World → Result A × World) → OauthWorld → Result A × OauthWorld
in_world m s = let r = m s.world in (r.0, record s { world = r.1 })

unfoldable pub get_account : OauthProvider → Text → OauthWorld → Option OauthAccount
get_account provider id s =
    find? (λ a. a.provider == provider && a.provider_account_id == id) s.accounts

abbrev state_matches : OauthProvider → Option (Text × OauthProvider) → Bool
state_matches provider none = false
state_matches provider (some e) = e.1 == provider

-- `cached and cached == provider.value`
unfoldable pub is_state : OauthProvider → Text → OauthWorld → Bool
is_state provider state s = state_matches provider (find? (λ e. e.0 == state) s.states)

-- `redis_cache.delete(f"oauth_state:{state}")`
abbrev pub forget_state : Text → Action OauthWorld (Unit {0})
forget_state state = modify (λ s. record s { states = filter (λ e. not (e.0 == state)) s.states })

abbrev pub of_result : Result Fetched → Action OauthWorld Fetched
of_result r s = (r, s)

-- the name is cut to the width of the column, after the search
unfoldable pub sign_up : OauthEnv → Profile → Action World User
unfolding choose_username create_user
sign_up o profile = do
  chosen ← gets (choose_username (base_username profile))
  username ← elim chosen [ some name ↦ pure name | none ↦ throw (Exception.other "fuel") ]
  user ←
      create_user o.env (profile_email profile) (take 39 username) (display_name profile) none true
  write_user user.id (λ u. record u { avatar_url = avatar profile })
  pure (record user { avatar_url = avatar profile })

abbrev pub known_or_new : OauthEnv → Profile → Option User → Action World User
known_or_new o profile (some user) = pure user
known_or_new o profile none = sign_up o profile

abbrev pub or_else : Option User → Option User → Option User
or_else none b = b
or_else (some a) b = some a

abbrev pub linked_user : Option OauthAccount → World → Option User
linked_user none s = none
linked_user (some account) s = get_user account.user_id s

abbrev scopes_of : Option Text → List Text
scopes_of none = []
scopes_of (some []) = []
scopes_of (some (c ∷ cs)) = split_at b' ' (c ∷ cs)

abbrev refreshed : OauthEnv → Option Text → Option Text → Option Text
refreshed o none old = old
refreshed o (some []) old = old
refreshed o (some (c ∷ cs)) old = some (o.encrypt (c ∷ cs))

abbrev pub link :
    OauthEnv → OauthProvider → Fetched → User → Option OauthAccount → Action OauthWorld (Unit {0})
link o provider got user none = do
  id ← in_world uuid4
  modify (λ s. record s {
    accounts =
        s.accounts
        ++ record {
          id = id;
          user_id = user.id;
          provider = provider;
          provider_account_id = account_id got.profile;
          access_token_encrypted = o.encrypt got.access_token;
          refresh_token_encrypted = refreshed o got.refresh_token none;
          scopes = scopes_of got.scope;
        }
          ∷ [];
  })
link o provider got user (some account) = modify (λ s. record s {
  accounts =
      update (λ a. a.id == account.id)
        (λ a. record a {
          access_token_encrypted = o.encrypt got.access_token;
          refresh_token_encrypted = refreshed o got.refresh_token a.refresh_token_encrypted;
        })
        s.accounts;
})

abbrev pub invalid_state : AppError
invalid_state = AppError.bad_request "Invalid OAuth state." (some "oauth_state_invalid")

-- the last steps, for the user that was found or signed up
unfoldable pub enter :
    OauthEnv
    → OauthProvider
    → Option Request
    → Fetched
    → Option OauthAccount
    → User
    → Action OauthWorld AuthResult
unfolding issue_tokens touch_login
enter o provider request got account user = do
  link o provider got user account
  in_world (touch_login o.env user.id (client_host request))
  tokens ← in_world (issue_tokens o.env user true request)
  pure (record { user = user; tokens = tokens })

-- what follows the check of the state
unfoldable pub sign_in :
    OauthEnv → OauthProvider → Text → Option Request → Action OauthWorld AuthResult
unfolding sign_up enter get_account get_user get_by_email
sign_in o provider code request = do
  got ← of_result (o.fetch provider code)
  account ← gets (get_account provider (account_id got.profile))
  known ← gets (λ s.
      or_else (linked_user account s.world)
        (get_by_email o.env (profile_email got.profile) s.world))
  user ← in_world (known_or_new o got.profile known)
  enter o provider request got account user

unfoldable pub handle_callback :
    OauthEnv → OauthProvider → Text → Text → Option Request → Action OauthWorld AuthResult
unfolding is_state sign_in
handle_callback o provider code state request = do
  valid ← gets (is_state provider state)
  raise_if (not valid) invalid_state
  forget_state state
  sign_in o provider code request
