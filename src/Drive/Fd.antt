-- ===== src/Drive/Fd.antt =====
-- File descriptors, api/drive/fd.go: the state, the write side, the commit, the read side, and
-- what is proved of them.
pub mod State
pub mod Write
pub mod Commit
pub mod Stream
pub mod Completion
pub mod Waits
pub mod Manifests
pub mod Flush
pub mod Session
pub mod Failures
pub mod Read
pub mod Reading
pub mod Resync
pub mod Recommit
pub mod Rewrite
pub mod Appending
