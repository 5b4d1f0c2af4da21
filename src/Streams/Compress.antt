-- ===== src/Streams/Compress.antt =====
-- src/streams/compress.rs: the handlers of the compress protocol.
pub mod Server
pub mod Client
pub mod Connect
pub mod Dialogue
pub mod Session
