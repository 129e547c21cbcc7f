-- ===== src/Sessions.antt =====
-- Sessions: which provider a conversation is bound to (internal/sessions).
pub mod Cache
pub mod Locks
pub mod Service
pub mod Repository
