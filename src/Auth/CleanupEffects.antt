-- ===== src/Auth/CleanupEffects.antt =====
-- What the purge of app/workers/tasks/cleanup.py leaves of the codes and of the refresh tokens.
