-- ===== src/Crypto/Defs.antt =====
-- The operations of rsa, aes-gcm and flate2 that the protocols call. What a call draws from
-- `rand::thread_rng()` is an argument.
use tcp_handler.Base.{ℕ, Option, Outcome}
use tcp_handler.Transport.{Bytes, IoError}
use tcp_handler.Common.Errors.{RsaError}

pub record Crypto : Type 1 where
  pub Seed : Type 0
  pub PrivateKey : Type 0
  pub PublicKey : Type 0
  -- `RsaPrivateKey::new(rng, bits)`, `key.n()`, `key.e()`, `RsaPublicKey::new(n, e)`
  pub new_private : Seed → ℕ → Outcome RsaError PrivateKey
  pub n : PrivateKey → ℕ
  pub e : PrivateKey → ℕ
  pub new_public : ℕ → ℕ → Outcome RsaError PublicKey
  -- `BigUint::to_bytes_le`, `BigUint::from_bytes_le`
  pub to_bytes_le : ℕ → Bytes
  pub from_bytes_le : Bytes → ℕ
  -- `encrypt` and `decrypt` with the padding OAEP over SHA-512
  pub rsa_encrypt : PublicKey → Seed → Bytes → Outcome RsaError Bytes
  pub rsa_decrypt : PrivateKey → Bytes → Outcome RsaError Bytes
  -- `Aes256Gcm::new`, `Aes256Gcm::new_from_slice`, `encrypt_in_place` and `decrypt_in_place` with a
  -- nonce and no associated data
  pub Aes : Type 0
  pub aes_new : Bytes → Aes
  pub aes_new_from_slice : Bytes → Option Aes
  pub encrypt_in_place : Aes → Bytes → Bytes → Option Bytes
  pub decrypt_in_place : Aes → Bytes → Bytes → Option Bytes

-- A `DeflateEncoder` of a level over a buffer, given all of the bytes and finished; and a
-- `DeflateDecoder`.
pub record Deflate : Type 0 where
  pub deflate : ℕ → Bytes → Outcome IoError Bytes
  pub inflate : Bytes → Outcome IoError Bytes
