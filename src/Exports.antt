-- ===== src/Exports.antt =====
-- Exports: app/models/export.py, app/repositories/export.py, app/workers/tasks/export.py.
pub mod Tables
pub mod Jobs
pub mod Lifecycle
pub mod Results
pub mod Tests
