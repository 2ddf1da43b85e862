-- ===== src/Attendance.antt =====
-- server/internal/attendance/service.go: manual overrides and the reports on attendance.
pub mod Override
pub mod Isolation
pub mod Reports
pub mod Written
pub mod Authorized
pub mod Roster
