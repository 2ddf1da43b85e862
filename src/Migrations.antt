-- ===== src/Migrations.antt =====
-- The migrations of server/db/migrate.go.
pub mod Files
pub mod Run
pub mod Progress
pub mod Outcomes
pub mod Rollback
pub mod Sorted
