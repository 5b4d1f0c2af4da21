-- ===== src/Streams/CompressEncrypt.antt =====
-- src/streams/compress_encrypt.rs: the handlers of the compress_encrypt protocol.
pub mod Server
pub mod Client
pub mod Connect
pub mod Dialogue
pub mod Session
