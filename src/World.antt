-- ===== src/World.antt =====
-- What a request of the server reads and changes: the database, the Redis keys, the messages
-- published to Kafka, the metrics and the clock; and the monad of a service method. The calls of
-- Postgres, Redis and Kafka are numbered, and the environment says which of them fail.
mod Defs
mod Calls
pub mod Promises
pub mod Isolation
pub mod Atomic
pub mod Outcomes
pub mod Total
unfoldable pub use Defs.*
unfoldable pub use Calls.*
