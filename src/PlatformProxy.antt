-- ===== src/PlatformProxy.antt =====
-- Taking a command-line tool over to the local relay and giving it back (internal/platformproxy).
pub mod EnvLine
pub mod EnvText
pub mod EnvEdit
pub mod Address
pub mod State
pub mod Gemini
pub mod JsonEdit
pub mod Claude
