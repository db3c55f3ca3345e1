-- ===== src/Protocol.antt =====
-- bridge/src/protocol.py: the frame, the commands and the events on the wire.
pub mod Opcodes
pub mod Crc
pub mod Frame
pub mod Events
pub mod Commands
