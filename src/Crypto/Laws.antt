-- ===== src/Crypto/Laws.antt =====
-- What the protocols rely on: decryption undoes encryption, and inflating undoes deflating.
use tcp_handler.Base.{ℕ, ◌≡◌, ◌≢◌, none, some, ok, length}
use tcp_handler.Transport.{Bytes}
use tcp_handler.Crypto.Defs.{Crypto, Deflate}

pub record IsCrypto (c : Crypto) : Type 0 where
  pub bytes_le : (x : ℕ) → c.from_bytes_le (c.to_bytes_le x) ≡ x
  -- A generated key has a public part, which encrypts for it.
  pub public : c.PrivateKey → c.PublicKey
  pub new_public-public :
      (s : c.Seed) (bits : ℕ) (k : c.PrivateKey)
      → c.new_private s bits ≡ ok k
      → c.new_public (c.n k) (c.e k) ≡ ok (public k)
  pub rsa_decrypt-encrypt :
      (k : c.PrivateKey) (s : c.Seed) (m x : Bytes)
      → c.rsa_encrypt (public k) s m ≡ ok x
      → c.rsa_decrypt k x ≡ ok m
  pub aes_new_from_slice-new :
      (key : Bytes) → length key ≡ 32 → c.aes_new_from_slice key ≡ some (c.aes_new key)
  pub decrypt-encrypt :
      (a : c.Aes) (nonce m x : Bytes)
      → c.encrypt_in_place a nonce m ≡ some x
      → c.decrypt_in_place a nonce x ≡ some m

pub record IsDeflate (d : Deflate) : Type 0 where
  pub inflate-deflate : (level : ℕ) (m x : Bytes) → d.deflate level m ≡ ok x → d.inflate x ≡ ok m

-- AES-GCM as an ideal cipher: what was encrypted under one nonce is refused under any other.
pub record IsAuthentic (c : Crypto) : Type 0 where
  pub decrypt_other :
      (a : c.Aes) (nonce nonce' m x : Bytes)
      → c.encrypt_in_place a nonce m ≡ some x
      → nonce ≢ nonce'
      → c.decrypt_in_place a nonce' x ≡ none
