-- ===== src/Workspace/Notifications.antt =====
-- app/services/notification_service.py and app/repositories/notification.py. The rows stand in the order in
-- which they were added, so that `created_at` descends from the end; `read_at` is left out.
use repo_info_backend.Auth.Tables.{Notification, World}
use repo_info_backend.Core.Errors.{AppError}
use repo_info_backend.Database.Pages.{limit, offset}
use repo_info_backend.Database.Session.{Action, gets, modify, or_raise, pure, ◌>>=◌, ◌>>◌}
use repo_info_backend.Prelude.{
  Bool, List, Option, count, drop, filter, find?, if◌then◌else◌, nat_eq, none, not, reverse, some,
  string_eq, take, text_eq, true, update, ℕ, ◌&&◌, ◌==◌, ◌||◌,
}

-- the `where` of `list_for_user`
abbrev pub is_listed : ℕ → Bool → Notification → Bool
is_listed user_id unread_only n = n.user_id == user_id && (not unread_only || not n.read)

abbrev pub newest_first : ℕ → Bool → World → List Notification
newest_first user_id unread_only s =
    reverse (filter (is_listed user_id unread_only) s.notifications)

unfoldable pub list_notifications : ℕ → Bool → ℕ → ℕ → Action World (List Notification × ℕ)
list_notifications user_id unread_only offset limit = gets (λ s. (
  take limit (drop offset (newest_first user_id unread_only s)),
  count (is_listed user_id unread_only) s.notifications,
))

abbrev pub marked : Notification → Notification
marked n = record n { read = true }

abbrev owned_notification : ℕ → Option Notification → Option Notification
owned_notification user_id none = none
owned_notification user_id (some n) = if n.user_id == user_id then some n else none

abbrev pub write_notifications : (Notification → Bool) → Action World (Unit {0})
write_notifications p =
    modify (λ s. record s { db = record s.db { notifications = update p marked s.notifications } })

unfoldable pub mark_read : ℕ → ℕ → Action World Notification
mark_read user_id id = do
  found ← gets (λ s. owned_notification user_id (find? (λ n. n.id == id) s.notifications))
  row ← or_raise found (AppError.not_found "Notification")
  write_notifications (λ n. n.id == row.id)
  pure (marked row)

abbrev pub is_unread : ℕ → Notification → Bool
is_unread user_id n = n.user_id == user_id && not n.read

-- with the number of the rows that the statement has written
unfoldable pub mark_all_read : ℕ → Action World ℕ
mark_all_read user_id = do
  written ← gets (λ s. count (is_unread user_id) s.notifications)
  write_notifications (is_unread user_id)
  pure written
