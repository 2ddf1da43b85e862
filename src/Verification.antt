-- ===== src/Verification.antt =====
-- server/internal/verification/service.go
pub mod Signals
pub mod Checkin
pub mod Isolation
pub mod Weighed
pub mod Accepted
pub mod Prune
