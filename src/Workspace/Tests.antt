-- ===== src/Workspace/Tests.antt =====
-- The inbox and the projects on small tables: app/services/notification_service.py, app/services/project_service.py.
use repo_info_backend.Auth.Tables.{Notification, World}
use repo_info_backend.Core.Errors.{Exception}
use repo_info_backend.Database.Session.{err, in_transaction, map_ok, ok}
use repo_info_backend.Models.Enums.{NotificationCategory}
use repo_info_backend.Prelude.{
  Bool, List, String, Text, [], arith, codes, false, if◌then◌else◌, map, nat_eq, none, refl, some,
  string_eq, text_beq, text_eq, true, ℕ, ◌==◌, ◌∷◌, ◌≡◌, ◌≢◌,
}
use repo_info_backend.Workspace.Inbox.{mark_all_read-list}
use repo_info_backend.Workspace.Keys.{IsKeyed}
use repo_info_backend.Workspace.Notifications.{list_notifications, mark_all_read, newest_first}
use repo_info_backend.Workspace.Projects.{
  Project, ProjectCreateRequest, Projects, create_project, delete_project, get_project,
  update_project,
}
use repo_info_backend.Workspace.Requests.{Change, apply, apply_all, apply_all-IsKeyed}
use repo_info_backend.Workspace.Slugs.{delete_project-create_project}

abbrev a_notification : ℕ → ℕ → Bool → Notification
a_notification id user_id read = record {
  id = id;
  user_id = user_id;
  category = NotificationCategory.system;
  title = "";
  message = "";
  read = read;
}

abbrev inbox : World
inbox = record {
  db = record {
    users = [];
    refresh_tokens = [];
    sessions = [];
    otps = [];
    password_resets = [];
    audit_logs = [];
    notifications =
        a_notification 1 7 false
        ∷ a_notification 2 8 false
        ∷ a_notification 3 7 true
        ∷ a_notification 4 7 false
        ∷ [];
    next_id = 5;
  };
  sent = [];
  revoked_jtis = [];
}

mark_all_read-list_example :
    let t = (mark_all_read 7 inbox).1 in
    (map_ok (λ (p : List Notification × ℕ). p.1) (list_notifications 7 true 0 2 inbox).0
      ≡ (mark_all_read 7 inbox).0)
    × ((list_notifications 7 true 0 2 t).0 ≡ ok ([], 0))
    × (map_ok (λ (p : List Notification × ℕ). p.1) (list_notifications 7 false 0 2 t).0
        ≡ map_ok (λ (p : List Notification × ℕ). p.1) (list_notifications 7 false 0 2 inbox).0)
    × ((other : ℕ) (unread_only : Bool)
        → 7 ≢ other
        → newest_first other unread_only t ≡ newest_first other unread_only inbox)
mark_all_read-list_example = mark_all_read-list 7 0 2 inbox

test_marked : (mark_all_read 7 inbox).0 ≡ ok 2
unfolding mark_all_read
test_marked = refl

abbrev slug : Text → Text
slug t = map (λ c. if c == b' ' then b'-' else c) t

abbrev named : String → ProjectCreateRequest
named name = record { organization_id = none; name = codes name; description = none }

abbrev no_projects : Projects
no_projects = record { projects = []; next_id = 1 }

abbrev first_project : Project
first_project = record {
  id = 1;
  owner_id = 7;
  organization_id = none;
  name = codes "my app";
  slug = codes "my-app";
  description = none;
  updated_at = 10;
  deleted_at = none;
}

abbrev one_project : Projects
one_project = record { projects = first_project ∷ []; next_id = 2 }

test_delete-create :
    ((delete_project 20 7 1 one_project).0 ≡ ok tt)
    × (let t = (delete_project 20 7 1 one_project).1 in
        create_project slug 30 7 (named "my app") t ≡ (err Exception.integrity, t))
unfolding get_project
test_delete-create =
    delete_project-create_project slug 20 30 7 1 (named "my app") first_project one_project refl
      refl refl

-- a creation, one that clashes with it, a change of name, which is rolled back, and a deletion
abbrev four_requests : List (ℕ × ℕ × Change)
four_requests =
    (10, 7, Change.create (named "my app"))
    ∷ (20, 7, Change.create (named "my-app"))
    ∷ (30, 7, Change.edit 1 (record { name = some (codes "tool"); description = none }))
    ∷ (40, 7, Change.remove 1)
    ∷ []

apply_all-IsKeyed_example : IsKeyed (apply_all slug four_requests no_projects)
apply_all-IsKeyed_example =
    apply_all-IsKeyed slug four_requests no_projects
      ((λ id. omega arith), (λ owner_id slug. omega arith), tt)

test_slugs :
    map (λ (p : Project). p.slug) (apply_all slug four_requests no_projects).projects
    ≡ codes "my-app" ∷ []
unfolding apply_all apply create_project update_project delete_project get_project in_transaction
    text_beq
test_slugs = refl
