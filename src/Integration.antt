-- ===== src/Integration.antt =====
-- The Home Assistant integration (custom_components/rose).
pub mod Dht11
pub mod Tcl
pub mod Climate
pub mod Presence
pub mod Requests
pub mod Groups
pub mod Controls
