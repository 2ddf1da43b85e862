-- ===== src/World/Outcomes.antt =====
-- Backward reasoning about a method that succeeds: one rule for each step of a `do` block.
mod Steps
mod Rules
unfoldable pub use Steps.*
unfoldable pub use Rules.*
