-- ===== src/Workspace.antt =====
-- The inbox and the projects of a user: app/services/notification_service.py, app/services/project_service.py.
pub mod Notifications
pub mod Inbox
pub mod Projects
pub mod Slugs
pub mod Keys
pub mod Requests
pub mod ApiKeys
pub mod KeyLife
pub mod Tests
pub mod KeyTests
