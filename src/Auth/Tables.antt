-- ===== src/Auth/Tables.antt =====
-- app/models/user.py, and the tables of app/models/audit.py and app/models/notification.py that
-- the authentication service writes. An id stands for a UUID, and a time is in seconds.
use repo_info_backend.Models.Enums.{AuditAction, GlobalRole, NotificationCategory, UserPlan}
use repo_info_backend.Prelude.{Bool, List, Option, String, Text, ℕ}

pub record User : Type 0 where
  pub id : ℕ
  pub email : Text
  pub username : Text
  pub display_name : Text
  pub hashed_password : Option Text
  pub avatar_url : Option Text
  pub bio : Option Text
  pub plan : UserPlan
  pub global_role : GlobalRole
  pub is_active : Bool
  pub email_verified : Bool
  pub two_factor_enabled : Bool
  pub last_login_at : Option ℕ
  pub last_login_ip : Option Text
  pub deleted_at : Option ℕ

pub record UserSession : Type 0 where
  pub id : ℕ
  pub user_id : ℕ
  pub refresh_token_id : Option ℕ
  pub device_name : Option Text
  pub user_agent : Option Text
  pub ip_address : Option Text
  pub location : Option Text
  pub is_current : Bool
  pub last_active_at : ℕ
  pub revoked_at : Option ℕ

pub record RefreshToken : Type 0 where
  pub id : ℕ
  pub user_id : ℕ
  pub token_hash : Text
  pub jti : ℕ
  pub expires_at : ℕ
  pub revoked_at : Option ℕ
  pub replaced_by_id : Option ℕ
  pub remember_me : Bool
  pub ip_address : Option Text
  pub user_agent : Option Text

pub record EmailOtp : Type 0 where
  pub id : ℕ
  pub user_id : ℕ
  pub code_hash : Text
  pub purpose : String
  pub expires_at : ℕ
  pub consumed_at : Option ℕ
  pub attempts : ℕ
  pub created_at : ℕ

pub record PasswordResetToken : Type 0 where
  pub id : ℕ
  pub user_id : ℕ
  pub token_hash : Text
  pub expires_at : ℕ
  pub consumed_at : Option ℕ

pub record AuditLog : Type 0 where
  pub id : ℕ
  pub actor_id : Option ℕ
  pub action : AuditAction
  pub resource_type : String
  pub resource_id : Option ℕ
  pub ip_address : Option Text

pub record Notification : Type 0 where
  pub id : ℕ
  pub user_id : ℕ
  pub category : NotificationCategory
  pub title : String
  pub message : String
  pub read : Bool

pub record Database : Type 0 where
  pub users : List User
  pub refresh_tokens : List RefreshToken
  pub sessions : List UserSession
  pub otps : List EmailOtp
  pub password_resets : List PasswordResetToken
  pub audit_logs : List AuditLog
  pub notifications : List Notification
  -- `uuid.uuid4()` never repeats an id: the ids below this one are taken
  pub next_id : ℕ

-- Mail cannot be taken back by a rollback.
pub data Mail : Type 0 where
  verification : Text → Text → Mail
  password_reset : Text → Text → Mail

pub record World : Type 0 where
  pub db : Database
  pub open db use *
  pub sent : List Mail
  -- the keys `revoked_access_jti:…` in Redis, with the time at which each expires
  pub revoked_jtis : List (ℕ × ℕ)

-- After a rollback the tables are as before; mail and Redis keep what was done.
abbrev pub rollback : World → World → World
rollback old new = record new { db = old.db }

-- `request.client.host` and the header `user-agent`
pub record Request : Type 0 where
  pub client_host : Option Text
  pub user_agent : Option Text
