-- ===== src/Admin.antt =====
-- Administration of a college (server/internal/admin).
pub mod Create
pub mod Import
pub mod Isolation
pub mod Imports
pub mod Confined
pub mod Imported
