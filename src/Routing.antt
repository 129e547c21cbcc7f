-- ===== src/Routing.antt =====
-- Routing: which provider serves a request, and under which model name (internal/routing).
pub mod Wildcard
pub mod Provider
pub mod Profile
pub mod Service
pub mod Preferences
