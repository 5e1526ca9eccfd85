-- ===== src/Auth/Recovery.antt =====
-- Password reset and change, in app/services/auth_service.py.
use repo_info_backend.Auth.Credentials.{login_complete}
use repo_info_backend.Auth.Issue.{AuthResult, stored_hash}
use repo_info_backend.Auth.Login.{LoginRequest, login}
use repo_info_backend.Auth.Passwords.{
  change_password, forgot_password, reset_password, reset_row, reset_token, with_password,
}
use repo_info_backend.Auth.Repositories.{by_id, get_by_email, get_reset_by_raw, is_live, revoked}
use repo_info_backend.Auth.Tables.{Mail, PasswordResetToken, Request, User, World}
use repo_info_backend.Auth.Tokens.{live-revoked}
use repo_info_backend.Core.Errors.{AppError, Exception}
use repo_info_backend.Core.Security.{Crypto, CryptoLaws, Env, hash_token}
use repo_info_backend.Database.Session.{Result, err, ok}
use repo_info_backend.Database.Times.{type_error}
use repo_info_backend.Prelude.{
  Option, Option-cases, Text, [], ap, arith, beq_refl, count, find?, find?-append_none,
  find?-update, inl, inr, is_none, nat_beq_refl, nat_eq, none, refl, some, text_eq, true, update,
  ◌&&◌, ◌++◌, ◌+◌, ◌==◌, ◌∷◌, ◌≡◌, ◌⊎◌,
}

-- A reset token that is stored and not used.
pub record Redeemable (env : Env) (token : Text) (s : World) : Type 0 where
  pub row : PasswordResetToken
  pub found : get_reset_by_raw env token s ≡ some row
  pub unused : row.consumed_at ≡ none

abbrev pub RejectsRequest {ℓ} : {A : Type ℓ} → Result A → Type 0
RejectsRequest (err (Exception.app (AppError.bad_request m c))) = Unit
RejectsRequest _ = ⊥

pub reset-Redeemable :
    (env : Env) (token password : Text) (s : World)
    → Redeemable env token s
    → reset_password env token password s ≡ (err type_error, s)
unfolding reset_password
reset-Redeemable env token password s a = rw (a.found, a.unused)

-- No reset token changes a password. One that is stored and not used ends in a TypeError, any other is refused,
-- and the state stays as it was.
pub reset_outcomes :
    (env : Env) (token password : Text) (s : World)
    → let (r, after) = reset_password env token password s in
      (after ≡ s)
      × ((Redeemable env token s × (r ≡ err type_error))
          ⊎ ((¬ Redeemable env token s) × RejectsRequest r))
unfolding reset_password
reset_outcomes env token password s = elim (Option-cases (get_reset_by_raw env token s)) [
  | inl e ↦ rw e (refl, inr ((λ p. cc (e, p.found)), tt))
  | inr (row, e) ↦ elim (Option-cases row.consumed_at) [
    | inl unused ↦
        rw (e, unused) (refl, inl (record { row = row; found = e; unused = unused }, refl))
    | inr (at, spent) ↦ rw (e, spent) (refl, inr ((λ p. cc (e, spent, p.found, p.unused)), tt))
  ]
]

forgot_writes :
    (env : Env) (email : Text) (s : World) (user : User)
    → get_by_email env email s ≡ some user
    → let raw = reset_token env user s.next_id in
      let after : World = (forgot_password env email s).1 in
      (after.sent ≡ s.sent ++ Mail.password_reset user.email raw ∷ [])
      × (after.password_resets ≡ s.password_resets ++ reset_row env user (s.next_id + 1) raw ∷ [])
unfolding forgot_password
forgot_writes env email s user known = rw known (refl, refl)

-- The link of a forgotten password is of no use: the known address gets a mail with a token, and presenting that
-- token, at any time and with any new password, ends in a TypeError with nothing changed. No stored reset token has
-- the same digest.
pub forgot_password-reset_password :
    (env later : Env) (email password : Text) (s : World) (user : User)
    → later.crypto ≡ env.crypto
    → get_by_email env email s ≡ some user
    → find?
        (λ r. r.token_hash == env.crypto.sha256 (reset_token env user s.next_id))
        s.password_resets
      ≡ none
    → let after : World = (forgot_password env email s).1 in
      (after.sent ≡ s.sent ++ Mail.password_reset user.email (reset_token env user s.next_id) ∷ [])
      × (reset_password later (reset_token env user s.next_id) password after
          ≡ (err type_error, after))
unfolding get_reset_by_raw hash_token
forgot_password-reset_password env later email password s user same known unseen =
    let raw = reset_token env user s.next_id in
    let row = reset_row env user (s.next_id + 1) raw in
    let after : World = (forgot_password env email s).1 in
    let (sent, resets) = forgot_writes env email s user known in
    let digest : later.crypto.sha256 raw ≡ env.crypto.sha256 raw =
      ap (λ (c : Crypto). c.sha256 raw) same in
    (
      sent,
      reset-Redeemable later raw password after (record {
        row = row;
        found = rw (
          digest,
          resets,
          find?-append_none (λ r. r.token_hash == env.crypto.sha256 raw) s.password_resets
              (row ∷ []) unseen,
          beq_refl (env.crypto.sha256 raw),
        );
        unused = refl;
      }),
    )

change_inversion :
    (env : Env) (user : User) (current new : Text) (s s' : World)
    → change_password env user current new s ≡ (ok tt, s')
    → (digest : Text) × (stored_hash user ≡ some digest) × (env.crypto.verify current digest ≡ true)
unfolding change_password
change_inversion env user current new s s' h = elim (Option-cases (stored_hash user)) [
  | inl e ↦ absurd (ground arith)
  | inr (digest, e) ↦ (digest, e, ground arith)
]

change_writes :
    (env : Env) (user : User) (current new digest : Text) (s : World)
    → stored_hash user ≡ some digest
    → env.crypto.verify current digest ≡ true
    → let after : World = (change_password env user current new s).1 in
      (after.users ≡ update (by_id user.id) (with_password env new) s.users)
      × (after.refresh_tokens ≡ update (is_live user.id) (revoked env none) s.refresh_tokens)
      × (after.sessions ≡ s.sessions)
      × (after.revoked_jtis ≡ s.revoked_jtis)
unfolding change_password
change_writes env user current new digest s e v = rw (e, v) (refl, refl, refl, refl)

-- A change of password succeeds only for the current password. Afterwards no refresh token of the user is live, while
-- the rows of the sessions and the revoked access tokens are as before; and the active account logs in with the
-- new password, if that has no null character.
pub change_password-login :
    (env later : Env) (user : User) (current : Text) (q : LoginRequest) (request : Option Request)
    (s s' : World)
    → CryptoLaws env.crypto
    → later.crypto ≡ env.crypto
    → count (λ x. x == 0) q.password ≡ 0
    → get_by_email later q.email s ≡ some user
    → user.is_active ≡ true
    → change_password env user current q.password s ≡ (ok tt, s')
    → ((digest : Text) × (stored_hash user ≡ some digest)
        × (env.crypto.verify current digest ≡ true))
      × (count (is_live user.id) s'.refresh_tokens ≡ 0)
      × (s'.sessions ≡ s.sessions)
      × (s'.revoked_jtis ≡ s.revoked_jtis)
      × ((r : AuthResult) × (s'' : World) × (login later q request s' ≡ (ok r, s''))
          × (r.user ≡ with_password env q.password user))
unfolding get_by_email
change_password-login env later user current q request s s' laws same plain mine active h =
    let (digest, stored, good) = change_inversion env user current q.password s s' h in
    let (users, tokens, sessions, jtis) =
      change_writes env user current q.password digest s stored good in
    let after : (change_password env user current q.password s).1 ≡ s' =
      ap (λ (p : Result (Unit {0}) × World). p.1) h in
    (
      (digest, stored, good),
      rw (← after, tokens) (live-revoked env user.id s.refresh_tokens),
      rw (← after) sessions,
      rw (← after) jtis,
      login_complete later q request s' (with_password env q.password user) (record {
        digest = env.crypto.hash q.password;
        found = rw (
          ← after,
          users,
          find?-update (λ u. u.email == later.lower q.email && is_none u.deleted_at) (by_id user.id)
              (with_password env q.password) s.users (λ x. refl),
          mine,
          nat_beq_refl user.id,
        );
        stored = rw (laws.hash_nonempty q.password);
        verified = rw (same, laws.verify-hash q.password plain);
        enabled = active;
      }),
    )
