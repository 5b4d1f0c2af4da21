-- ===== src/Common.antt =====
-- src/protocols/common.rs
pub mod Errors
pub mod Variant
pub mod Decision
pub mod Keys
pub mod Cipher
pub mod Head
pub mod Last
pub mod Packet
pub mod Exchange
pub mod Channel
pub mod Tasks
pub mod KeyExchange
