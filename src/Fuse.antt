-- ===== src/Fuse.antt =====
-- The kernel's side of the mount, internal/fusemount.
pub mod Directories
pub mod Shares
pub mod Outside
pub mod Dispatch
pub mod Children
pub mod Operations
pub mod Requests
pub mod Gate
pub mod Recovery
pub mod Listings
