-- ===== src/Reporting.antt =====
-- server/internal/reporting: the aggregates that follow the attendance events.
pub mod Aggregates
pub mod Isolation
pub mod Updated
