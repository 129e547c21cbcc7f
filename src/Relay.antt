-- ===== src/Relay.antt =====
-- The HTTP relay (internal/interfaces/http/relay).
pub mod CodexStream
pub mod Body
pub mod Route
pub mod Manual
