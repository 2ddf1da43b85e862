-- ===== src/Guarantees.antt =====
-- What the requests of the server promise, whatever the services around it do: the theorems on the
-- methods of server/internal/session, verification, attendance, reporting and auth.
pub mod Sessions
pub mod Checkins
pub mod Records
pub mod Traffic
pub mod Accounts
pub mod Endpoints
pub mod Colleges
pub mod Migrations
