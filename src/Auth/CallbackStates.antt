-- ===== src/Auth/CallbackStates.antt =====
-- A state of the OAuth flow (app/services/oauth_service.py) serves one callback.
use repo_info_backend.Auth.Callback.{
  Fetched, OauthAccount, OauthEnv, OauthWorld, account_id, enter, get_account, handle_callback,
  invalid_state, is_state, known_or_new, linked_user, or_else, profile_email, sign_in,
}
use repo_info_backend.Auth.Issue.{issue_tokens}
use repo_info_backend.Auth.Repositories.{get_by_email, touch_login}
use repo_info_backend.Auth.Tables.{Request, User}
use repo_info_backend.Core.Errors.{Exception}
use repo_info_backend.Database.Session.{Result, err, ok}
use repo_info_backend.Models.Enums.{OauthProvider, oauth_provider_eq}
use repo_info_backend.Prelude.{
  Bool-cases, List, Option, Text, [], false, filter, find?, inl, inr, nat_eq, none, not, refl, some,
  text_eq, true, ◌==◌, ◌∷◌, ◌≡◌, ◌⊎◌,
}

Result-cases :
    {A : Type 0} (r : Result A) → ((a : A) × (r ≡ ok a)) ⊎ ((e : Exception) × (r ≡ err e))
Result-cases (ok a) = inl (a, refl)
Result-cases (err e) = inr (e, refl)

enter-states :
    (o : OauthEnv) (provider : OauthProvider) (request : Option Request) (got : Fetched)
    (account : Option OauthAccount) (user : User) (s : OauthWorld)
    → (enter o provider request got account user s).1.states ≡ s.states
unfolding enter issue_tokens touch_login
enter-states o provider request got none user s = refl
enter-states o provider request got (some account) user s = refl

sign_in-states :
    (o : OauthEnv) (provider : OauthProvider) (code : Text) (request : Option Request)
    (s : OauthWorld)
    → (sign_in o provider code request s).1.states ≡ s.states
unfolding sign_in
sign_in-states o provider code request s = elim (Result-cases (o.fetch provider code)) [
  | inr (e, failed) ↦ rw (failed) refl
  | inl (got, fetched) ↦
      let account = get_account provider (account_id got.profile) s in
      let known =
        or_else (linked_user account s.world)
          (get_by_email o.env (profile_email got.profile) s.world) in
      rw (fetched) (elim (Result-cases (known_or_new o got.profile known s.world).0) [
        | inr (e, failed) ↦ rw (failed) refl
        | inl (user, found) ↦ rw (found) (enter-states o provider request got account user _)
      ])
]

forgotten :
    (provider : OauthProvider) (state : Text) (s t : OauthWorld)
    → t.states ≡ filter (λ e. not (e.0 == state)) s.states
    → is_state provider state t ≡ false
unfolding is_state
forgotten provider state s t e = rw (e, no_state s.states) refl
  where
    no_state :
        (states : List (Text × OauthProvider))
        → find? (λ e. e.0 == state) (filter (λ e. not (e.0 == state)) states) ≡ none
    no_state [] = refl
    no_state (x ∷ states) = elim (Bool-cases (x.0 == state)) [
      | inl t ↦ rw (t) (no_state states)
      | inr f ↦ rw (f) (rw (f) (no_state states))
    ]

-- Whatever a callback with a valid state comes to, also when the exchange with the provider or the sign-in
-- fails, another callback with the same state is refused and changes nothing.
pub handle_callback_once :
    (o : OauthEnv) (provider again : OauthProvider) (code other state : Text)
    (request later : Option Request) (s : OauthWorld)
    → is_state provider state s ≡ true
    → let t = (handle_callback o provider code state request s).1 in
      handle_callback o again other state later t ≡ (err (Exception.app invalid_state), t)
unfolding handle_callback
handle_callback_once o provider again code other state request later s valid =
    refused (handle_callback o provider code state request s).1
      (forgotten again state s (handle_callback o provider code state request s).1 spent)
  where
    spent :
        (handle_callback o provider code state request s).1.states
        ≡ filter (λ e. not (e.0 == state)) s.states
    spent = rw (valid) (sign_in-states o provider code request _)

    refused :
        (t : OauthWorld)
        → is_state again state t ≡ false
        → handle_callback o again other state later t ≡ (err (Exception.app invalid_state), t)
    refused t unknown = rw (unknown) refl
