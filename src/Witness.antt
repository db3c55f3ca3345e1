-- ===== src/Witness.antt =====
-- Tests: the theorems applied to concrete values.
mod Data
mod Stream
mod Wire
mod Waits
mod Link
mod Signals
mod Commands
mod Capture
mod Home
mod Web
