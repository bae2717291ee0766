-- ===== src/Error.antt =====
-- error.rs: the error type, results, and actions that read and write a state and may fail.
pub mod Defs
pub mod Exec
pub mod Redact
pub mod Display
