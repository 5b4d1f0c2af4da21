-- ===== src/Tests.antt =====
-- The protocols run over a transport in memory, with a cipher and a compression made for it.
pub mod Setup
pub mod Handshakes
pub mod Conversations
pub mod Messages
pub mod Connections
pub mod Sessions
pub mod SealedSessions
pub mod CompressedSessions
pub mod Failures
pub mod Panics
pub mod SharedCipher
pub mod Configuration
pub mod Cuts
pub mod Duplex
pub mod Scenarios
pub mod EncryptScenario
pub mod CompressEncryptScenario
