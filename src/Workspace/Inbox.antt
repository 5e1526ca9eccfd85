-- ===== src/Workspace/Inbox.antt =====
-- What is listed after notifications are marked as read (app/services/notification_service.py).
use repo_info_backend.Auth.Tables.{Notification, World}
use repo_info_backend.Database.Pages.{limit, offset}
use repo_info_backend.Database.Session.{map_ok, ok}
use repo_info_backend.Prelude.{
  All-always, Bool, List, [], ap, arith, count, drop_all, false, filter, filter-update, refl,
  reverse, sym, take, take_all, true, update, ℕ, ◌∙◌, ◌∷◌, ◌≡◌, ◌≢◌,
}
use repo_info_backend.Workspace.Notifications.{
  is_listed, is_unread, list_notifications, mark_all_read, marked, newest_first,
}

none_unread :
    (user_id : ℕ) (rows : List Notification)
    → filter (is_listed user_id true) (update (is_unread user_id) marked rows) ≡ []
none_unread user_id [] = refl
none_unread user_id (n ∷ rows) = ground (arith, none_unread user_id rows)

count_unread :
    (user_id : ℕ) (rows : List Notification)
    → count (is_listed user_id true) (update (is_unread user_id) marked rows) ≡ 0
count_unread user_id [] = refl
count_unread user_id (n ∷ rows) = ground (arith, count_unread user_id rows)

same_total :
    (user_id : ℕ) (rows : List Notification)
    → count (is_listed user_id false) (update (is_unread user_id) marked rows)
      ≡ count (is_listed user_id false) rows
same_total user_id [] = refl
same_total user_id (n ∷ rows) = ground (arith, same_total user_id rows)

same_unread :
    (user_id : ℕ) (rows : List Notification)
    → count (is_unread user_id) rows ≡ count (is_listed user_id true) rows
same_unread user_id [] = refl
same_unread user_id (n ∷ rows) = ground (arith, same_unread user_id rows)

others :
    (user_id other : ℕ) (unread_only : Bool) (rows : List Notification)
    → user_id ≢ other
    → filter (is_listed other unread_only) (update (is_unread user_id) marked rows)
      ≡ filter (is_listed other unread_only) rows
others user_id other unread_only rows differ =
    filter-update (is_listed other unread_only) (is_unread user_id) marked rows
      (All-always (λ x hit. (ground arith, ground arith)) rows)

-- `mark_all_read` returns the number of unread notifications that `list` counted, after it none is listed as
-- unread, all of them are still counted, and the pages of other users are as before.
pub mark_all_read-list :
    (user_id offset limit : ℕ) (s : World)
    → let t = (mark_all_read user_id s).1 in
      (map_ok
          (λ (p : List Notification × ℕ). p.1)
          (list_notifications user_id true offset limit s).0
        ≡ (mark_all_read user_id s).0)
      × ((list_notifications user_id true offset limit t).0 ≡ ok ([], 0))
      × (map_ok
            (λ (p : List Notification × ℕ). p.1)
            (list_notifications user_id false offset limit t).0
          ≡ map_ok
              (λ (p : List Notification × ℕ). p.1)
              (list_notifications user_id false offset limit s).0)
      × ((other : ℕ) (unread_only : Bool)
          → user_id ≢ other
          → newest_first other unread_only t ≡ newest_first other unread_only s)
unfolding mark_all_read list_notifications
mark_all_read-list user_id offset limit s = (
  ap ok (sym (same_unread user_id s.notifications)),
  rw (none_unread user_id s.notifications, count_unread user_id s.notifications)
      (ap (λ xs. ok (take limit xs, 0)) (drop_all offset [] (omega arith))
        ∙ ap (λ xs. ok (xs, 0)) (take_all limit [] (omega arith))),
  ap ok (same_total user_id s.notifications),
  λ other unread_only differ. ap reverse (others user_id other unread_only s.notifications differ),
)
