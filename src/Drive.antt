-- ===== src/Drive.antt =====
-- The Drive client, api/drive.
pub mod XAttr
pub mod BufferCache
pub mod Fd
pub mod BlockStore
pub mod LinkCache
pub mod Symlinks
