-- ===== src/Tests.antt =====
-- Concrete inputs, and the theorems applied to them.
mod Setup
mod Cache
mod Calls
mod Descriptor
mod Commits
mod Reads
mod Settings
mod Sessions
mod Tasks
mod Mount
mod Directories
mod Paths
mod Links
mod Shares
