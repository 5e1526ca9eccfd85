-- ===== src/Auth/Credentials.antt =====
-- Who may log in: `login`, `register` and the password methods of app/services/auth_service.py.
use repo_info_backend.Auth.Issue.{AuthResult, stored_hash}
use repo_info_backend.Auth.Login.{LoginRequest, login}
use repo_info_backend.Auth.Registration.{RegisterRequest, register}
use repo_info_backend.Auth.Repositories.{get_by_email, get_by_username, has_name_or_email}
use repo_info_backend.Auth.Tables.{Request, User, World}
use repo_info_backend.Core.Errors.{AppError, Exception}
use repo_info_backend.Core.Security.{CryptoLaws, Env}
use repo_info_backend.Database.Session.{err, ok}
use repo_info_backend.Models.Enums.{GlobalRole, UserPlan, global_role_eq, user_plan_eq}
use repo_info_backend.Prelude.{
  Option, Option-cases, Text, [], arith, beq_refl, count, false, find?, find?-append_none, inl, inr,
  is_none, nat_eq, none, refl, some, text_eq, true, ◌&&◌, ◌++◌, ◌==◌, ◌∷◌, ◌≡◌, ◌⊎◌,
}

-- What a successful login went through.
pub record Authenticated (env : Env) (p : LoginRequest) (s : World) (user : User) : Type 0 where
  pub digest : Text
  pub found : get_by_email env p.email s ≡ some user
  pub stored : stored_hash user ≡ some digest
  pub verified : env.crypto.verify p.password digest ≡ true
  pub enabled : user.is_active ≡ true

-- A login that succeeds found an active account of that address, whose stored hash the password
-- verifies against.
pub login_sound :
    (env : Env) (p : LoginRequest) (request : Option Request) (s s' : World) (r : AuthResult)
    → login env p request s ≡ (ok r, s')
    → Authenticated env p s r.user
unfolding login
login_sound env p request s s' r h = elim (Option-cases (get_by_email env p.email s)) [
  | inl e ↦ absurd (ground arith)
  | inr (user, e) ↦ elim (Option-cases (stored_hash user)) [
    | inl none_e ↦ absurd (ground arith)
    | inr (digest, ed) ↦ record {
      digest = digest;
      found = ground arith;
      stored = ground arith;
      verified = ground arith;
      enabled = ground arith;
    }
  ]
]

-- Conversely every active account logs in with its password, and gets its own tokens.
pub login_complete :
    (env : Env) (p : LoginRequest) (request : Option Request) (s : World) (user : User)
    → Authenticated env p s user
    → (r : AuthResult) × (s' : World) × (login env p request s ≡ (ok r, s')) × (r.user ≡ user)
unfolding login
login_complete env p request s user a =
    rw (a.found, a.stored, a.verified, a.enabled) (_, _, refl, refl)

-- An unknown address and a wrong password get the same answer, and neither changes anything.
pub login_uniform :
    (env : Env) (p : LoginRequest) (request : Option Request) (s : World)
    → (get_by_email env p.email s ≡ none)
      ⊎ ((u : User) × (h : Text) × (get_by_email env p.email s ≡ some u)
          × (stored_hash u ≡ some h)
          × (env.crypto.verify p.password h ≡ false))
    → login env p request s ≡ (err (Exception.app AppError.invalid_credentials), s)
unfolding login
login_uniform env p request s (inl none_e) = rw none_e
login_uniform env p request s (inr (u, h, found, stored, wrong)) = rw (found, stored, wrong)

-- The row that registration adds.
unfoldable pub registered : Env → RegisterRequest → World → User
registered env p s = record {
  id = s.next_id;
  email = env.lower p.email;
  username = p.username;
  display_name = p.display_name;
  hashed_password = some (env.crypto.hash p.password);
  avatar_url = none;
  bio = none;
  plan = UserPlan.free;
  global_role = GlobalRole.user;
  is_active = true;
  email_verified = false;
  two_factor_enabled = false;
  last_login_at = none;
  last_login_ip = none;
  deleted_at = none;
}

pub record Registered (env : Env) (p : RegisterRequest) (s : World) : Type 0 where
  pub new_email : get_by_email env p.email s ≡ none
  pub new_username : get_by_username p.username s ≡ none
  pub free : find? (has_name_or_email (env.lower p.email) p.username) s.users ≡ none

register_users :
    (env : Env) (p : RegisterRequest) (request : Option Request) (s : World)
    → get_by_email env p.email s ≡ none
    → get_by_username p.username s ≡ none
    → find? (has_name_or_email (env.lower p.email) p.username) s.users ≡ none
    → ((register env p request s).1.users ≡ s.users ++ registered env p s ∷ [])
unfolding register registered
register_users env p request s e e' free = rw (e, e', free)

pub register_inversion :
    (env : Env) (p : RegisterRequest) (request : Option Request) (s s' : World) (r : AuthResult)
    → register env p request s ≡ (ok r, s')
    → Registered env p s × (s'.users ≡ s.users ++ registered env p s ∷ [])
unfolding register
register_inversion env p request s s' r h = elim (Option-cases (get_by_email env p.email s)) [
  | inr (u, e) ↦ absurd (ground arith)
  | inl e ↦ elim (Option-cases (get_by_username p.username s)) [
    | inr (u, e') ↦ absurd (ground arith)
    | inl e' ↦
        elim (Option-cases (find? (has_name_or_email (env.lower p.email) p.username) s.users)) [
          | inr (u, held) ↦ absurd (ground arith)
          | inl free ↦ (
            record { new_email = e; new_username = e'; free = free },
            cc (h, register_users env p request s e e' free),
          )
        ]
  ]
]

pub register-get_by_email :
    (env later : Env) (p : RegisterRequest) (request : Option Request) (s s' : World)
    (r : AuthResult)
    → later.lower ≡ env.lower
    → register env p request s ≡ (ok r, s')
    → get_by_email later p.email s' ≡ some (registered env p s)
unfolding get_by_email registered
register-get_by_email env later p request s s' r same_lower h =
    let (reg, users) = register_inversion env p request s s' r h in
    rw (
      same_lower,
      users,
      find?-append_none (λ u. u.email == env.lower p.email && is_none u.deleted_at) s.users
          (registered env p s ∷ []) reg.new_email,
      beq_refl (env.lower p.email),
    )

-- An account can be used as soon as it is registered: the address and the password, which has no null character,
-- log in the user whose row the registration added.
pub register-login :
    (env later : Env) (p : RegisterRequest) (q : LoginRequest) (request again : Option Request)
    (s s' : World) (r : AuthResult)
    → CryptoLaws env.crypto
    → later.crypto ≡ env.crypto
    → later.lower ≡ env.lower
    → q.email ≡ p.email
    → q.password ≡ p.password
    → count (λ x. x == 0) p.password ≡ 0
    → register env p request s ≡ (ok r, s')
    → (t : AuthResult) × (s'' : World) × (login later q again s' ≡ (ok t, s''))
      × (t.user ≡ registered env p s)
unfolding registered
register-login env later p q request again s s' r laws same_crypto same_lower same_email
      same_password plain h =
    login_complete later q again s' (registered env p s) (record {
      digest = env.crypto.hash p.password;
      found = rw same_email (register-get_by_email env later p request s s' r same_lower h);
      stored = rw (laws.hash_nonempty p.password);
      verified = rw (same_crypto, same_password, laws.verify-hash p.password plain);
      enabled = refl;
    })
