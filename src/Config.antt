-- ===== src/Config.antt =====
-- The configuration from environment variables (server/config/config.go). A text is the list of its
-- bytes.
pub mod Reads
pub mod Loads
pub mod Secured
