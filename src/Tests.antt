-- ===== src/Tests.antt =====
-- A small college, and runs of the requests on it: the server's role is bound by row-level
-- security, every service answers, and it is noon.
pub mod Fixtures
pub mod Machine
pub mod Requests
pub mod Reports
pub mod Failures
pub mod Tokens
pub mod Gates
pub mod Startup
pub mod Colleges
