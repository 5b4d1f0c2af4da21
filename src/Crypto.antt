-- ===== src/Crypto.antt =====
-- What the protocols use of the crates rsa, aes-gcm and flate2.
mod Defs
mod Laws
pub use Defs.{Crypto, Deflate}
pub use Laws.{IsCrypto, IsDeflate, IsAuthentic}
