-- ===== src/Streams/Raw.antt =====
-- src/streams/raw.rs: the handlers of the raw protocol.
pub mod Server
pub mod Client
pub mod Connect
pub mod Dialogue
pub mod Session
