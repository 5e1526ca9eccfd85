-- ===== src/Catalog.antt =====
-- The catalog of repositories: app/models/repository.py, app/repositories/repository.py,
-- app/services/repository_service.py and app/utils/git.py.
pub mod Tables
pub mod Paths
pub mod GitUrl
pub mod Segments
pub mod RoundTrip
pub mod Queries
pub mod Service
pub mod Views
pub mod Trees
pub mod Reports
pub mod RowOrder
pub mod TreeCounts
pub mod TreeRows
pub mod Ownership
pub mod Toggles
pub mod Lifecycle
pub mod Tests
pub mod ViewTests
