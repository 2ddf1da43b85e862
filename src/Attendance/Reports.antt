-- ===== src/Attendance/Reports.antt =====
-- The read-only reports of server/internal/attendance/service.go. A LEFT JOIN on a unique key
-- gives a row at most one partner, and ORDER BY a name follows the database's collation, which is
-- a parameter.
mod Rows
mod Queries
unfoldable pub use Rows.*
unfoldable pub use Queries.*
