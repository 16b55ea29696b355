-- ===== src/Urls.antt =====
-- Return addresses: pantry/urlutil/urlutil.go and pantry/httpnav.
pub mod Spaces
pub mod Paths
pub mod Safe
pub mod Back
mod Examples
