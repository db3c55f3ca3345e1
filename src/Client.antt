-- ===== src/Client.antt =====
-- bridge/src/client.py: the client over the command dispatcher and the event handler.
pub mod Resolution
pub mod Session
pub mod Readings
pub mod Operations
