-- ===== src/Tenant.antt =====
-- New colleges (server/internal/tenant).
pub mod Uuids
pub mod Colleges
pub mod Created
pub mod Confined
