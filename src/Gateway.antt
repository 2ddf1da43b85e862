-- ===== src/Gateway.antt =====
-- server/internal/gateway: who may call an endpoint, and how often.
pub mod Access
pub mod RateLimit
pub mod Probes
