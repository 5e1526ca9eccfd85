-- ===== src/Database.antt =====
-- app/database: sessions and transactions.
pub mod Session
pub mod Times
pub mod Pages
pub mod Tests
