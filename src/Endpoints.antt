-- ===== src/Endpoints.antt =====
-- The authenticated endpoints: the handlers of server/internal/session, verification, attendance and
-- admin. A text that is missing is the empty one, 0; a body that does not decode is `none`.
pub mod Teachers
pub mod Students
pub mod Admins
pub mod Route
pub mod Confined
pub mod Dispatched
