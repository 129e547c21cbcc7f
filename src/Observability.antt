-- ===== src/Observability.antt =====
-- What the log records of a request (internal/observability).
pub mod Tokens
