-- ===== src/Auth/Revocation.antt =====
-- What a user can revoke: `logout` and `revoke_session` of app/services/auth_service.py.
use repo_info_backend.Auth.Login.{logout, revoke_own}
use repo_info_backend.Auth.Repositories.{
  ended, get_by_raw, get_refresh_token, get_session, has_hash, is_live, revoke, revoke_all_for_user,
  revoked,
}
use repo_info_backend.Auth.Sessions.{revoke_session}
use repo_info_backend.Auth.Tables.{RefreshToken, User, UserSession, World}
use repo_info_backend.Auth.Tokens.{live-revoked}
use repo_info_backend.Core.Errors.{AppError, Exception}
use repo_info_backend.Core.Security.{Env, hash_token}
use repo_info_backend.Database.Session.{err, ok}
use repo_info_backend.Prelude.{
  All, All-always, All-map, Bool, Bool-cases, List, Option, Option-cases, Text, [], arith,
  beq_false, beq→eq, count, filter, filter-update, find?-All, find?-update, inl, inr, nat_beq_refl,
  nat_eq, none, refl, some, string_eq, text_eq, true, update, ℕ, ◌!=◌, ◌==◌, ◌∷◌, ◌≡◌, ◌≢◌,
}

-- the rows of other users
pub foreign : ℕ → RefreshToken → Bool
foreign user_id t = t.user_id != user_id

-- Without a token, `logout` ends every session of its user.
pub logout_everywhere :
    (env : Env) (user : User) (s : World)
    → count (is_live user.id) (logout env user none s).1.refresh_tokens ≡ 0
unfolding logout
logout_everywhere env user s = live-revoked env user.id s.refresh_tokens

abbrev pub Keyed : List RefreshToken → Type 0
Keyed xs =
    All (λ (a : RefreshToken). All (λ (b : RefreshToken). b.id ≡ a.id → b.user_id ≡ a.user_id) xs)
      xs

revoke_all_isolated :
    (env : Env) (user_id : ℕ) (s : World)
    → filter (foreign user_id) (revoke_all_for_user env user_id s).1.refresh_tokens
      ≡ filter (foreign user_id) s.refresh_tokens
unfolding revoke_all_for_user foreign
revoke_all_isolated env user_id s =
    filter-update (foreign user_id) (is_live user_id) (revoked env none) s.refresh_tokens
      (All-always (λ x h. ground arith) s.refresh_tokens)

revoke_isolated :
    (env : Env) (rt : RefreshToken) (user_id : ℕ) (s : World)
    → All (λ (b : RefreshToken). b.id ≡ rt.id → b.user_id ≡ rt.user_id) s.refresh_tokens
    → rt.user_id ≡ user_id
    → filter (foreign user_id) (revoke env rt none s).1.refresh_tokens
      ≡ filter (foreign user_id) s.refresh_tokens
unfolding revoke foreign
revoke_isolated env rt user_id s keyed mine =
    filter-update (foreign user_id) (λ t. t.id == rt.id) (revoked env none) s.refresh_tokens
      (All-map (λ x k h. ground (arith, k (beq→eq x.id rt.id h))) s.refresh_tokens keyed)

get_by_raw-Keyed :
    (env : Env) (raw : Text) (s : World) (rt : RefreshToken)
    → Keyed s.refresh_tokens
    → get_by_raw env raw s ≡ some rt
    → All (λ (b : RefreshToken). b.id ≡ rt.id → b.user_id ≡ rt.user_id) s.refresh_tokens
unfolding get_by_raw
get_by_raw-Keyed env raw s rt keyed e =
    find?-All
      (λ (a : RefreshToken).
        All (λ (b : RefreshToken). b.id ≡ a.id → b.user_id ≡ a.user_id) s.refresh_tokens)
      (has_hash (hash_token env raw)) s.refresh_tokens rt keyed e

-- `logout` never touches the tokens of another user, whatever token it is given, in a table whose
-- rows of one id have one user.
pub logout_isolated :
    (env : Env) (user : User) (raw : Option Text) (s : World)
    → Keyed s.refresh_tokens
    → filter (foreign user.id) (logout env user raw s).1.refresh_tokens
      ≡ filter (foreign user.id) s.refresh_tokens
unfolding logout revoke_own
logout_isolated env user none s keyed = revoke_all_isolated env user.id s
logout_isolated env user (some []) s keyed = revoke_all_isolated env user.id s
logout_isolated env user (some (c ∷ cs)) s keyed = elim (Option-cases (get_by_raw env (c ∷ cs) s)) [
  | inl e ↦ rw e
  | inr (rt, e) ↦ elim (Bool-cases (rt.user_id == user.id)) [
    | inl t ↦
        rw (e, t)
          (revoke_isolated env rt user.id s (get_by_raw-Keyed env (c ∷ cs) s rt keyed e)
            (beq→eq rt.user_id user.id t))
    | inr f ↦ rw (e, f)
  ]
]

-- The session of another user answers like one that does not exist, and stays as it is.
pub revoke_session_foreign :
    (env : Env) (user : User) (session_id : ℕ) (s : World) (x : UserSession)
    → get_session session_id s ≡ some x
    → x.user_id ≢ user.id
    → revoke_session env user session_id s ≡ (err (Exception.app (AppError.not_found "Session")), s)
unfolding revoke_session
revoke_session_foreign env user session_id s x e other = rw (e, beq_false x.user_id user.id other)

revoke_session_writes :
    (env : Env) (user : User) (session_id : ℕ) (s : World) (x : UserSession) (t : RefreshToken)
    (id : ℕ)
    → get_session session_id s ≡ some x
    → (x.user_id == user.id) ≡ true
    → x.refresh_token_id ≡ some id
    → get_refresh_token id s ≡ some t
    → let after : World = (revoke_session env user session_id s).1 in
      ((revoke_session env user session_id s).0 ≡ ok tt)
      × (after.sessions ≡ update (λ y. y.id == x.id) (ended env) s.sessions)
      × (after.refresh_tokens ≡ update (λ y. y.id == t.id) (revoked env none) s.refresh_tokens)
unfolding revoke_session get_refresh_token
revoke_session_writes env user session_id s x t id e owns linked et =
    rw (e, owns, linked, et) (refl, refl, refl)

-- The owner of a session can end it: the session's row and its refresh token are revoked.
pub revoke_session_own :
    (env : Env) (user : User) (session_id : ℕ) (s : World) (x : UserSession) (t : RefreshToken)
    (id : ℕ)
    → get_session session_id s ≡ some x
    → x.user_id ≡ user.id
    → x.refresh_token_id ≡ some id
    → get_refresh_token id s ≡ some t
    → let after : World = (revoke_session env user session_id s).1 in
      ((revoke_session env user session_id s).0 ≡ ok tt)
      × (get_session session_id after ≡ some (ended env x))
      × (get_refresh_token id after ≡ some (revoked env none t))
unfolding get_session get_refresh_token
revoke_session_own env user session_id s x t id e mine linked et =
    let owns : (x.user_id == user.id) ≡ true = rw (mine, nat_beq_refl user.id) in
    let (done, sessions, tokens) =
      revoke_session_writes env user session_id s x t id e owns linked et in
    (
      done,
      rw (
        sessions,
        find?-update (λ y. y.id == session_id) (λ y. y.id == x.id) (ended env) s.sessions
            (λ y. refl),
        e,
        nat_beq_refl x.id,
      ),
      rw (
        tokens,
        find?-update (λ y. y.id == id) (λ y. y.id == t.id) (revoked env none) s.refresh_tokens
            (λ y. refl),
        et,
        nat_beq_refl t.id,
      ),
    )
