-- ===== src/Models.antt =====
-- The ORM classes of app/models: the enumerations here, the tables in the modules of the
-- components that own them.
pub mod Enums
