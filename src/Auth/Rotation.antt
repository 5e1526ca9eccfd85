-- ===== src/Auth/Rotation.antt =====
-- What becomes of a refresh token that is presented: `AuthService.refresh` of app/services/auth_service.py.
use repo_info_backend.Auth.Login.{refresh}
use repo_info_backend.Auth.Repositories.{get_by_raw, is_live}
use repo_info_backend.Auth.Tables.{RefreshToken, Request, World, rollback}
use repo_info_backend.Auth.Tokens.{live-revoked}
use repo_info_backend.Core.Errors.{AppError, Exception}
use repo_info_backend.Core.Security.{Claims, Decoded, Env, TokenType, decode_token}
use repo_info_backend.Database.Session.{Result, err, in_transaction}
use repo_info_backend.Database.Times.{type_error}
use repo_info_backend.Prelude.{
  Option, Option-cases, Text, count, inl, inr, none, refl, some, ℕ, ◌≡◌, ◌⊎◌,
}

abbrev pub RejectsToken {ℓ} : {A : Type ℓ} → Result A → Type 0
RejectsToken (err (Exception.app (AppError.token_invalid m))) = Unit
RejectsToken _ = ⊥

-- Presenting a revoked token revokes, within the session, every refresh token of its user: none of
-- them is live in the state that the service method leaves, and the answer is a refusal.
pub refresh_reuse :
    (env : Env) (raw : Text) (request : Option Request) (s : World) (rt : RefreshToken) (c : Claims)
    (at : ℕ)
    → decode_token env raw TokenType.refresh ≡ Decoded.payload c
    → get_by_raw env raw s ≡ some rt
    → rt.revoked_at ≡ some at
    → RejectsToken (refresh env raw request s).0
      × (count (is_live rt.user_id) (refresh env raw request s).1.refresh_tokens ≡ 0)
unfolding refresh
refresh_reuse env raw request s rt c at d e r =
    rw (d, e, r) (tt, live-revoked env rt.user_id s.refresh_tokens)

-- A token that decodes, and whose row is stored and not revoked.
pub record Presentable (env : Env) (raw : Text) (s : World) : Type 0 where
  pub claims : Claims
  pub rt : RefreshToken
  pub decoded : decode_token env raw TokenType.refresh ≡ Decoded.payload claims
  pub found : get_by_raw env raw s ≡ some rt
  pub live : rt.revoked_at ≡ none

pub refresh-Presentable :
    (env : Env) (raw : Text) (request : Option Request) (s : World)
    → Presentable env raw s
    → refresh env raw request s ≡ (err type_error, s)
unfolding refresh
refresh-Presentable env raw request s a = rw (a.decoded, a.found, a.live)

decoded_cases :
    (d : Decoded)
    → ((c : Claims) × (d ≡ Decoded.payload c)) ⊎ ((d ≡ Decoded.expired) ⊎ (d ≡ Decoded.invalid))
decoded_cases (Decoded.payload c) = inl (c, refl)
decoded_cases Decoded.expired = inr (inl refl)
decoded_cases Decoded.invalid = inr (inr refl)

-- No refresh token serves. One that decodes, and that is stored and not revoked, ends in the TypeError of
-- the comparison of its time with the clock; any other is refused as invalid. And whatever is presented, the
-- request leaves the state as it was, the revocation of a family included.
pub refresh_outcomes :
    (env : Env) (raw : Text) (request : Option Request) (s : World)
    → let (r, after) = in_transaction rollback (refresh env raw request) s in
      (after ≡ s)
      × ((Presentable env raw s × (r ≡ err type_error))
          ⊎ ((¬ Presentable env raw s) × RejectsToken r))
unfolding refresh in_transaction
refresh_outcomes env raw request s = elim (decoded_cases (decode_token env raw TokenType.refresh)) [
  | inr (inl d) ↦ rw d (refl, inr ((λ p. cc (d, p.decoded)), tt))
  | inr (inr d) ↦ rw d (refl, inr ((λ p. cc (d, p.decoded)), tt))
  | inl (c, d) ↦ elim (Option-cases (get_by_raw env raw s)) [
    | inl e ↦ rw (d, e) (refl, inr ((λ p. cc (e, p.found)), tt))
    | inr (rt, e) ↦ elim (Option-cases rt.revoked_at) [
      | inl live ↦
          rw (d, e, live)
            (refl, inl (record { claims = c; rt = rt; decoded = d; found = e; live = live }, refl))
      | inr (at, gone) ↦ rw (d, e, gone) (refl, inr ((λ p. cc (e, gone, p.found, p.live)), tt))
    ]
  ]
]
