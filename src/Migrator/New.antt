-- ===== src/Migrator/New.antt =====
-- The first migration of a database.
