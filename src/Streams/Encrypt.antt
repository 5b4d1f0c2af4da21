-- ===== src/Streams/Encrypt.antt =====
-- src/streams/encrypt.rs: the handlers of the encrypt protocol.
pub mod Server
pub mod Client
pub mod Connect
pub mod Dialogue
pub mod Session
