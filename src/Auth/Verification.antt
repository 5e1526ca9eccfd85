-- ===== src/Auth/Verification.antt =====
-- One-time codes: `verify_otp` of app/services/auth_service.py.
use repo_info_backend.Auth.Credentials.{
  Registered, register-get_by_email, register_inversion, registered,
}
use repo_info_backend.Auth.Issue.{AuthResult}
use repo_info_backend.Auth.Registration.{RegisterRequest, register, verify_otp}
use repo_info_backend.Auth.Repositories.{get_by_email, is_pending, latest_for, newest}
use repo_info_backend.Auth.Tables.{EmailOtp, Request, User, World}
use repo_info_backend.Core.Errors.{AppError, Exception}
use repo_info_backend.Core.Security.{Env}
use repo_info_backend.Database.Session.{Result, err, ok}
use repo_info_backend.Database.Times.{type_error}
use repo_info_backend.Prelude.{
  Bool, Bool-cases, List, Option, Option-cases, Text, [], ap, filter, inl, inr, nat_beq_refl, none,
  refl, some, sym, true, ◌++◌, ◌∙◌, ◌∷◌, ◌≡◌, ◌⊎◌,
}

-- An account of that address with a code that is not consumed.
pub record Pending (env : Env) (email : Text) (s : World) : Type 0 where
  pub user : User
  pub otp : EmailOtp
  pub known : get_by_email env email s ≡ some user
  pub latest : latest_for user.id "email_verification" s ≡ some otp

-- the refusals of an address that is not known, and of one without a pending code
abbrev pub RejectsAddress {ℓ} : {A : Type ℓ} → Result A → Type 0
RejectsAddress (err (Exception.app (AppError.not_found m))) = Unit
RejectsAddress (err (Exception.app (AppError.bad_request m none))) = Unit
RejectsAddress _ = ⊥

pub verify-Pending :
    (env : Env) (email code : Text) (request : Option Request) (s : World)
    → Pending env email s
    → verify_otp env email code request s ≡ (err type_error, s)
unfolding verify_otp
verify-Pending env email code request s a = rw (a.known, a.latest)

-- No code verifies an address. Where one is pending, the request ends in a TypeError, with the right code and with
-- a wrong one alike; otherwise it is refused. The state stays as it was, so that no attempt is counted.
pub verify_outcomes :
    (env : Env) (email code : Text) (request : Option Request) (s : World)
    → let (r, after) = verify_otp env email code request s in
      (after ≡ s)
      × ((Pending env email s × (r ≡ err type_error))
          ⊎ ((¬ Pending env email s) × RejectsAddress r))
unfolding verify_otp
verify_outcomes env email code request s = elim (Option-cases (get_by_email env email s)) [
  | inl e ↦ rw e (refl, inr ((λ p. cc (e, p.known)), tt))
  | inr (user, e) ↦ elim (Option-cases (latest_for user.id "email_verification" s)) [
    | inl none_e ↦ rw (e, none_e) (refl, inr (no_code user e none_e, tt))
    | inr (otp, eo) ↦
        rw (e, eo) (refl, inl (record { user = user; otp = otp; known = e; latest = eo }, refl))
  ]
]
  where
    no_code :
        (user : User)
        → get_by_email env email s ≡ some user
        → latest_for user.id "email_verification" s ≡ none
        → ¬ Pending env email s
    no_code user e none_e p =
        let same : p.user ≡ user = cc (e, p.known) in
        let same_id : p.user.id ≡ user.id = ap (λ (u : User). u.id) same in
        cc (none_e, p.latest, same_id)

newest-append :
    (p : EmailOtp → Bool) (o : EmailOtp) (os : List EmailOtp)
    → p o ≡ true
    → (a : EmailOtp) × (newest (filter p (os ++ o ∷ [])) ≡ some a)
newest-append p o [] h = rw h (o, refl)
newest-append p o (x ∷ os) h = elim (Bool-cases (p x)) [
  | inl t ↦ rw t (_, refl)
  | inr f ↦ rw f (newest-append p o os h)
]

-- the row of the code that registration mails
register_otps :
    (env : Env) (p : RegisterRequest) (request : Option Request) (s : World)
    → Registered env p s
    → (o : EmailOtp) × ((register env p request s).1.otps ≡ s.otps ++ o ∷ [])
      × (is_pending s.next_id "email_verification" o ≡ true)
unfolding register
register_otps env p request s a =
    rw (a.new_email, a.new_username, a.free) (_, refl, rw (nat_beq_refl s.next_id) refl)

-- A new account stays unverified: whatever code is given for its address, the mailed one too, the request ends in a
-- TypeError, and the account is as it was registered.
pub register-verify_otp :
    (env later : Env) (p : RegisterRequest) (request again : Option Request) (code : Text)
    (s s' : World) (r : AuthResult)
    → later.lower ≡ env.lower
    → register env p request s ≡ (ok r, s')
    → let (answer, after) = verify_otp later p.email code again s' in
      (answer ≡ err type_error) × (get_by_email later p.email after ≡ some (registered env p s))
unfolding latest_for registered
register-verify_otp env later p request again code s s' r same h =
    let (reg, _) = register_inversion env p request s s' r h in
    let (o, otps, pending) = register_otps env p request s reg in
    let known = register-get_by_email env later p request s s' r same h in
    let after : (register env p request s).1 ≡ s' = ap (λ (q : Result AuthResult × World). q.1) h in
    let all_otps : s'.otps ≡ s.otps ++ o ∷ [] = ap (λ (w : World). w.otps) (sym after) ∙ otps in
    let (latest, e) = newest-append (is_pending s.next_id "email_verification") o s.otps pending in
    let outcome =
      verify-Pending later p.email code again s' (record {
        user = registered env p s;
        otp = latest;
        known = known;
        latest = rw all_otps e;
      }) in
    rw outcome (refl, known)
