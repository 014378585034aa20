-- ===== src/Config.antt =====
-- The configuration, api/config and api/cache_config.go.
pub mod Numbers
pub mod Param
pub mod State
pub mod Selector
pub mod Fields
pub mod Texts
pub mod Mapping
pub mod Listing
