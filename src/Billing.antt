-- ===== src/Billing.antt =====
-- Billing: app/models/billing.py, app/repositories/billing.py, app/services/billing_service.py.
pub mod Tables
pub mod Queries
pub mod Service
pub mod Current
pub mod Shown
pub mod Changes
pub mod Rows
pub mod Single
pub mod Cancellation
pub mod Tests
