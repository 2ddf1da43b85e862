-- ===== src/Session.antt =====
-- server/internal/session/service.go: a teacher starts a session, shows its code and ends it.
pub mod Codes
pub mod Start
pub mod Rotate
pub mod End
pub mod Started
pub mod Marked
pub mod Ended
pub mod Isolation
pub mod Confined
pub mod Summary
pub mod Rotated
