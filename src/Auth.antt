-- ===== src/Auth.antt =====
-- server/internal/auth: tokens, login, signup and password resets.
pub mod Tokens
pub mod Purposes
pub mod Accounts
pub mod Logins
pub mod Handlers
pub mod Confined
