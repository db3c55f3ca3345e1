-- ===== src/Server.antt =====
-- bridge/src/server.py: the stream of bytes from the device cut into frames (Stream), and the
-- life of the connection (Connection).
pub mod Stream
pub mod Connection
