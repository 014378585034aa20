-- ===== src/Keyring.antt =====
-- Stored sessions, internal/keyring.
pub mod Outside
pub mod Index
pub mod Saving
pub mod Loading
pub mod Removal
pub mod Sweep
