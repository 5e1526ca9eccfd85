-- ===== src/Auth/Repositories.antt =====
-- app/repositories/user.py, with `AuditLogRepository.log` and `NotificationRepository.enqueue`:
-- the queries and writes of the authentication service.
use repo_info_backend.Auth.Tables.{
  AuditLog, EmailOtp, Notification, PasswordResetToken, RefreshToken, User, UserSession, World,
}
use repo_info_backend.Core.Errors.{Exception}
use repo_info_backend.Core.Security.{Env, hash_token}
use repo_info_backend.Database.Session.{Action, err, modify, ok, pure, ◌>>=◌, ◌>>◌}
use repo_info_backend.Models.Enums.{
  AuditAction, GlobalRole, NotificationCategory, UserPlan, global_role_eq, user_plan_eq,
}
use repo_info_backend.Prelude.{
  Bool, List, Option, String, Text, [], false, filter, find?, if◌then◌else◌, is_none, is_some, leb,
  nat_eq, none, some, string_eq, text_eq, true, update, ℕ, ◌&&◌, ◌++◌, ◌+◌, ◌==◌, ◌||◌, ◌∷◌,
}

-- `uuid.uuid4()`
abbrev pub uuid4 : Action World ℕ
uuid4 s = (ok s.next_id, record s { db = record s.db { next_id = s.next_id + 1 } })

-- UserRepository

abbrev pub by_id : ℕ → User → Bool
by_id user_id u = u.id == user_id

-- `db.get(User, id)`, which sees deleted users too
unfoldable pub get_user : ℕ → World → Option User
get_user user_id s = find? (by_id user_id) s.users

unfoldable pub get_by_email : Env → Text → World → Option User
get_by_email env email s = find? (λ u. u.email == env.lower email && is_none u.deleted_at) s.users

unfoldable pub get_by_username : Text → World → Option User
get_by_username username s = find? (λ u. u.username == username && is_none u.deleted_at) s.users

-- A write to a loaded user, and the flush.
abbrev pub write_user : ℕ → (User → User) → Action World (Unit {0})
write_user user_id f =
    modify (λ s. record s { db = record s.db { users = update (by_id user_id) f s.users } })

-- The row of `create_user`; the id is one that has not been taken.
abbrev pub user_row : Env → Text → Text → Text → Option Text → Bool → ℕ → User
user_row env email username display_name hashed_password email_verified id = record {
  id = id;
  email = env.lower email;
  username = username;
  display_name = display_name;
  hashed_password = hashed_password;
  avatar_url = none;
  bio = none;
  plan = UserPlan.free;
  global_role = GlobalRole.user;
  is_active = true;
  email_verified = email_verified;
  two_factor_enabled = false;
  last_login_at = none;
  last_login_ip = none;
  deleted_at = none;
}

-- the columns `email` and `username` are unique, for the rows of deleted users too
abbrev pub has_name_or_email : Text → Text → User → Bool
has_name_or_email email username u = u.email == email || u.username == username

-- the flush of the new row
unfoldable pub create_user : Env → Text → Text → Text → Option Text → Bool → Action World User
create_user env email username display_name hashed_password email_verified s =
    if is_some (find? (has_name_or_email (env.lower email) username) s.users)
    then (err Exception.integrity, s)
    else (do
      id ← uuid4
      let user = user_row env email username display_name hashed_password email_verified id
      modify (λ s. record s { db = record s.db { users = s.users ++ user ∷ [] } })
      pure user)
        s

abbrev pub login_touched : Env → Option Text → User → User
login_touched env ip u = record u { last_login_at = some env.now; last_login_ip = ip }

unfoldable pub touch_login : Env → ℕ → Option Text → Action World (Unit {0})
touch_login env user_id ip = write_user user_id (login_touched env ip)

-- RefreshTokenRepository

abbrev pub has_hash : Text → RefreshToken → Bool
has_hash h t = t.token_hash == h

unfoldable pub get_by_raw : Env → Text → World → Option RefreshToken
unfolding hash_token
get_by_raw env raw s = find? (has_hash (hash_token env raw)) s.refresh_tokens

unfoldable pub get_refresh_token : ℕ → World → Option RefreshToken
get_refresh_token id s = find? (λ t. t.id == id) s.refresh_tokens

-- `token.revoked_at = now`, and the replacement if there is one
abbrev pub revoked : Env → Option RefreshToken → RefreshToken → RefreshToken
revoked env none t = record t { revoked_at = some env.now }
revoked env (some by) t = record t { revoked_at = some env.now; replaced_by_id = some by.id }

abbrev pub write_tokens : (RefreshToken → Bool) → (RefreshToken → RefreshToken) → World → World
write_tokens p f s = record s { db = record s.db { refresh_tokens = update p f s.refresh_tokens } }

unfoldable pub revoke : Env → RefreshToken → Option RefreshToken → Action World (Unit {0})
revoke env token replaced_by =
    modify (write_tokens (λ t. t.id == token.id) (revoked env replaced_by))

-- the rows of the bulk update
abbrev pub is_live : ℕ → RefreshToken → Bool
is_live user_id t = t.user_id == user_id && is_none t.revoked_at

unfoldable pub revoke_all_for_user : Env → ℕ → Action World (Unit {0})
revoke_all_for_user env user_id = modify (write_tokens (is_live user_id) (revoked env none))

-- UserSessionRepository

-- newest first: `order_by(last_active_at.desc())` as an insertion sort
abbrev insert_session : UserSession → List UserSession → List UserSession
insert_session x [] = x ∷ []
insert_session x (y ∷ ys) =
    if leb y.last_active_at x.last_active_at then x ∷ y ∷ ys else y ∷ insert_session x ys

abbrev pub newest_first : List UserSession → List UserSession
newest_first [] = []
newest_first (x ∷ xs) = insert_session x (newest_first xs)

unfoldable pub list_active : ℕ → World → List UserSession
list_active user_id s =
    newest_first (filter (λ x. x.user_id == user_id && is_none x.revoked_at) s.sessions)

unfoldable pub get_session : ℕ → World → Option UserSession
get_session id s = find? (λ x. x.id == id) s.sessions

-- `session.revoked_at = now`
abbrev pub ended : Env → UserSession → UserSession
ended env x = record x { revoked_at = some env.now }

unfoldable pub revoke_session_row : Env → ℕ → Action World (Unit {0})
revoke_session_row env id = modify (λ s. record s {
  db = record s.db { sessions = update (λ x. x.id == id) (ended env) s.sessions };
})

-- EmailOtpRepository

abbrev pub is_pending : ℕ → String → EmailOtp → Bool
is_pending user_id purpose o = o.user_id == user_id && o.purpose == purpose && is_none o.consumed_at

-- The row of the greatest `created_at`; of equal ones the row that was added last.
abbrev pub newer : EmailOtp → Option EmailOtp → EmailOtp
newer a none = a
newer a (some b) = if leb a.created_at b.created_at then b else a

abbrev pub newest : List EmailOtp → Option EmailOtp
newest [] = none
newest (x ∷ xs) = some (newer x (newest xs))

unfoldable pub latest_for : ℕ → String → World → Option EmailOtp
latest_for user_id purpose s = newest (filter (is_pending user_id purpose) s.otps)

abbrev pub write_otp : ℕ → (EmailOtp → EmailOtp) → Action World (Unit {0})
write_otp id f =
    modify (λ s. record s { db = record s.db { otps = update (λ o. o.id == id) f s.otps } })

-- PasswordResetTokenRepository

unfoldable pub get_reset_by_raw : Env → Text → World → Option PasswordResetToken
unfolding hash_token
get_reset_by_raw env raw s = find? (λ r. r.token_hash == hash_token env raw) s.password_resets

abbrev pub write_reset : ℕ → (PasswordResetToken → PasswordResetToken) → Action World (Unit {0})
write_reset id f = modify (λ s. record s {
  db = record s.db { password_resets = update (λ r. r.id == id) f s.password_resets };
})

-- AuditLogRepository and NotificationRepository

unfoldable pub audit_log :
    Option ℕ → AuditAction → String → Option ℕ → Option Text → Action World (Unit {0})
audit_log actor_id action resource_type resource_id ip_address = do
  id ← uuid4
  let entry : AuditLog = record {
    id = id;
    actor_id = actor_id;
    action = action;
    resource_type = resource_type;
    resource_id = resource_id;
    ip_address = ip_address;
  }
  modify (λ s. record s { db = record s.db { audit_logs = s.audit_logs ++ entry ∷ [] } })

unfoldable pub enqueue : ℕ → NotificationCategory → String → String → Action World (Unit {0})
enqueue user_id category title message = do
  id ← uuid4
  let notif : Notification = record {
    id = id;
    user_id = user_id;
    category = category;
    title = title;
    message = message;
    read = false;
  }
  modify (λ s. record s { db = record s.db { notifications = s.notifications ++ notif ∷ [] } })
