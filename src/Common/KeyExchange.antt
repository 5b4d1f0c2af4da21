-- ===== src/Common/KeyExchange.antt =====
-- The handshake of the two encrypting protocols, for either variant: the four functions of
-- encrypt.rs and compress_encrypt.rs differ in the variant alone.
pub mod Opening
pub mod Answer
pub mod Agreement
pub mod Cut
use tcp_handler.Base.{
  ℕ, Bool, Outcome, ok, Action, ◌>>=◌, ◌>>◌, pure, lift, map_err, and_then, unwrap,
}
use tcp_handler.Transport.{Bytes, Str, fixed, u8_vec, Transport}
use tcp_handler.Crypto.{Crypto}
use tcp_handler.Common.Variant.{ProtocolVariant}
use tcp_handler.Common.Errors.{StarterError, rsa, starter}
use tcp_handler.Common.Keys.{generate_rsa_private, compose_rsa_public}
use tcp_handler.Common.Cipher.{InnerAesCipher, Cipher, new}
use tcp_handler.Common.Head.{write_head, read_head}
use tcp_handler.Common.Last.{write_last, read_last, flush}

module _ (t : Transport) (c : Crypto) (p : ProtocolVariant) where
  abbrev pub client_init : Bool → c.Seed → Str → Str → Action t.Writer StarterError c.PrivateKey
  client_init af seed i v = do
    (key, n, e) ← lift (generate_rsa_private c seed)
    write_head t p i v
    starter (t.write u8_vec n)
    starter (t.write u8_vec e)
    starter (flush t af)
    pure key

  abbrev pub server_init :
      Str → (Str → Bool) → Action t.Reader StarterError ((ℕ × Str) × c.PublicKey)
  server_init i v = do
    versions ← read_head t p i v
    n ← starter (t.read u8_vec)
    e ← starter (t.read u8_vec)
    key ← lift (compose_rsa_public c n e)
    pure (versions, key)

  abbrev pub server_start :
      Bool
      → Bytes
      → Bytes
      → c.Seed
      → Str
      → Str
      → Outcome StarterError ((ℕ × Str) × c.PublicKey)
      → Action t.Writer StarterError (Cipher c × ℕ × Str)
  server_start af aes_key nonce seed i v last = do
    ((va, vb), public) ← write_last t p i v last
    encrypted_aes ← lift (map_err rsa (c.rsa_encrypt public seed aes_key))
    starter (t.write u8_vec encrypted_aes)
    starter (t.write (fixed 12) nonce)
    starter (flush t af)
    pure (new (c.aes_new aes_key, nonce), va, vb)

  -- The closure of `client_start`: its `unwrap` panics on a key that does not have 32 bytes.
  abbrev pub open_key : c.PrivateKey → Bytes → Bytes → Outcome StarterError (InnerAesCipher c)
  open_key key encrypted_aes nonce =
      and_then (map_err rsa (c.rsa_decrypt key encrypted_aes))
        (λ aes_key. and_then (unwrap (c.aes_new_from_slice aes_key)) (λ cipher. ok (cipher, nonce)))

  abbrev pub client_start :
      Outcome StarterError c.PrivateKey → Action t.Reader StarterError (Cipher c)
  client_start last = do
    key ← read_last t last
    encrypted_aes ← starter (t.read u8_vec)
    nonce ← starter (t.read (fixed 12))
    cipher ← lift (open_key key encrypted_aes nonce)
    pure (new cipher)
