-- ===== src/Auth/CallbackTests.antt =====
-- Runs of the OAuth callback of app/services/oauth_service.py.
use repo_info_backend.Auth.Callback.{
  Fetched, OauthAccount, OauthEnv, OauthWorld, Profile, get_account, handle_callback, invalid_state,
  is_state,
}
use repo_info_backend.Auth.CallbackStates.{handle_callback_once}
use repo_info_backend.Auth.CallbackUsers.{handle_callback_linked}
use repo_info_backend.Auth.Issue.{AuthResult}
use repo_info_backend.Auth.Repositories.{get_by_username, get_user}
use repo_info_backend.Auth.SampleTests.{empty, env}
use repo_info_backend.Auth.Tables.{User, World}
use repo_info_backend.Auth.UsernameSearch.{choose_username_ends}
use repo_info_backend.Auth.Usernames.{choose_username, free_username}
use repo_info_backend.Core.Errors.{Exception}
use repo_info_backend.Database.Session.{err, ok}
use repo_info_backend.Models.Enums.{GlobalRole, OauthProvider, UserPlan}
use repo_info_backend.Prelude.{
  Text, [], codes, decimal, false, length, none, refl, some, text_beq, true, ◌∷◌, ◌≡◌,
}

abbrev linus : User
linus = record {
  id = 4;
  email = codes "linus@example.com";
  username = codes "linus";
  display_name = codes "Linus";
  hashed_password = none;
  avatar_url = none;
  bio = none;
  plan = UserPlan.free;
  global_role = GlobalRole.user;
  is_active = false;
  email_verified = true;
  two_factor_enabled = false;
  last_login_at = none;
  last_login_ip = none;
  deleted_at = none;
}

abbrev populated : World
populated = record empty {
  db = record {
    users = linus ∷ [];
    refresh_tokens = [];
    sessions = [];
    otps = [];
    password_resets = [];
    audit_logs = [];
    notifications = [];
    next_id = 9;
  };
}

abbrev profile : Profile
profile = Profile.github (codes "77") (codes "linus") none none none

abbrev got : Fetched
got = record {
  profile = profile;
  access_token = codes "a";
  refresh_token = none;
  scope = some (codes "user repo");
}

abbrev oauth_env : OauthEnv
oauth_env = record { env = env; fetch = λ provider code. ok got; encrypt = λ t. t }

abbrev linked : OauthAccount
linked = record {
  id = 5;
  user_id = 4;
  provider = OauthProvider.github;
  provider_account_id = codes "77";
  access_token_encrypted = [];
  refresh_token_encrypted = none;
  scopes = [];
}

abbrev oauth_world : OauthWorld
oauth_world = record {
  world = populated;
  accounts = linked ∷ [];
  states = (codes "xyz", OauthProvider.github) ∷ [];
}

choose_username_ends_example :
    (name : Text) × (choose_username linus.username populated ≡ some name)
    × (get_by_username name populated ≡ none)
choose_username_ends_example = choose_username_ends linus.username populated

-- the second candidate is free
test_candidate : choose_username linus.username populated ≡ some (codes "linus-1")
unfolding choose_username free_username get_by_username text_beq decimal
test_candidate = refl

handle_callback_once_example :
    let t = (handle_callback oauth_env OauthProvider.github [] (codes "xyz") none oauth_world).1 in
    handle_callback oauth_env OauthProvider.google [] (codes "xyz") none t
    ≡ (err (Exception.app invalid_state), t)
unfolding is_state text_beq
handle_callback_once_example =
    handle_callback_once oauth_env OauthProvider.github OauthProvider.google [] [] (codes "xyz")
      none none oauth_world refl

handle_callback_linked_example :
    (r : AuthResult) × (t : OauthWorld) × (handle_callback oauth_env OauthProvider.github []
        (codes "xyz")
        none
        oauth_world
      ≡ (ok r, t))
    × (r.user ≡ linus)
    × (length t.world.users ≡ 1)
    × (length t.accounts ≡ 1)
unfolding is_state get_account get_user text_beq
handle_callback_linked_example =
    handle_callback_linked oauth_env OauthProvider.github [] (codes "xyz") none oauth_world got
      linked linus refl refl refl refl
