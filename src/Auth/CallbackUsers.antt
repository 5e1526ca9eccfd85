-- ===== src/Auth/CallbackUsers.antt =====
-- Whom the callback of app/services/oauth_service.py signs in.
use repo_info_backend.Auth.Callback.{
  Fetched, OauthAccount, OauthEnv, OauthWorld, account_id, enter, get_account, handle_callback,
  is_state, sign_in,
}
use repo_info_backend.Auth.Issue.{AuthResult, client_host, issue_tokens}
use repo_info_backend.Auth.Repositories.{by_id, get_user, login_touched, touch_login}
use repo_info_backend.Auth.Tables.{Request, User}
use repo_info_backend.Database.Session.{ok}
use repo_info_backend.Models.Enums.{OauthProvider, oauth_provider_eq}
use repo_info_backend.Prelude.{
  Bool, List, Option, Text, [], ap, filter, length, nat_eq, not, refl, some, suc, text_eq, true,
  update, ◌==◌, ◌∷◌, ◌≡◌,
}

length-update :
    {A : Type 0} (q : A → Bool) (f : A → A) (xs : List A) → length (update q f xs) ≡ length xs
length-update q f [] = refl
length-update q f (x ∷ xs) = ap suc (length-update q f xs)

enter_linked :
    (o : OauthEnv) (provider : OauthProvider) (request : Option Request) (got : Fetched)
    (account : OauthAccount) (user : User) (s : OauthWorld)
    → (r : AuthResult) × (t : OauthWorld) × (enter o provider request got (some account) user s
        ≡ (ok r, t))
      × (r.user ≡ user)
      × (length t.world.users ≡ length s.world.users)
      × (length t.accounts ≡ length s.accounts)
unfolding enter issue_tokens touch_login
enter_linked o provider request got account user s = (
  _,
  _,
  refl,
  refl,
  length-update (by_id user.id) (login_touched o.env (client_host request)) s.world.users,
  length-update (λ a. a.id == account.id) _ s.accounts,
)

-- A callback signs in the user that the account is linked to, whether or not that user is active; it adds
-- no user and no linked account. The state is valid, the exchange succeeds and the linked user exists.
pub handle_callback_linked :
    (o : OauthEnv) (provider : OauthProvider) (code state : Text) (request : Option Request)
    (s : OauthWorld) (got : Fetched) (account : OauthAccount) (user : User)
    → is_state provider state s ≡ true
    → o.fetch provider code ≡ ok got
    → get_account provider (account_id got.profile) s ≡ some account
    → get_user account.user_id s.world ≡ some user
    → (r : AuthResult) × (t : OauthWorld) × (handle_callback o provider code state request s
        ≡ (ok r, t))
      × (r.user ≡ user)
      × (length t.world.users ≡ length s.world.users)
      × (length t.accounts ≡ length s.accounts)
unfolding handle_callback sign_in get_account
handle_callback_linked o provider code state request s got account user valid fetched linked
      stands =
    let entered =
      enter_linked o provider request got account user
        (record s { states = filter (λ e. not (e.0 == state)) s.states }) in
    (
      entered.0,
      entered.1,
      rw (valid) (rw (fetched) (rw (linked) (rw (stands) (rw (linked) entered.2)))),
      entered.3,
      entered.4,
      entered.5,
    )
