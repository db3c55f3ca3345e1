-- ===== src/Platform.antt =====
-- The platform's web service (platform/src) over the bridge's client.
pub mod Values
pub mod Events
pub mod Updates
pub mod Cache
pub mod Monitor
pub mod Schemas
pub mod Service
pub mod Errors
pub mod Api
pub mod Access
pub mod Manager
pub mod Sockets
pub mod Executor
pub mod Pins
pub mod Commands
