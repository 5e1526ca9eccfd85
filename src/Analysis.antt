-- ===== src/Analysis.antt =====
-- The analysis pipeline: app/workers/tasks/repository.py.
pub mod Statistics
pub mod Indexing
pub mod Tree
pub mod Directories
pub mod Languages
pub mod Architecture
pub mod Pipeline
pub mod Stores
pub mod Run
pub mod Stages
pub mod Outcomes
pub mod Rerun
pub mod Success
pub mod Tests
