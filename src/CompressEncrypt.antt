-- ===== src/CompressEncrypt.antt =====
-- src/protocols/compress_encrypt.rs. A function that borrows a stream and a `Cipher` acts on the
-- pair.
pub mod Handshake
pub mod Sealing
pub mod Messages
pub mod Conversation
pub mod Failures
pub mod Broken
pub mod Tasks
use tcp_handler.Base.{
  ℕ, Bool, ◌++◌, Outcome, ok, Action, ◌>>=◌, ◌>>◌, pure, lift, map_err, and_then, ok_or, unwrap,
  on_left, on_right,
}
use tcp_handler.Config.{Config, get_compression}
use tcp_handler.Transport.{Bytes, Str, fixed, u8_vec, Transport}
use tcp_handler.Crypto.{Crypto, Deflate}
use tcp_handler.Common.Variant.{compress_encryption}
use tcp_handler.Common.Errors.{PacketError, aes, StarterError, rsa, starter, packet}
use tcp_handler.Common.Keys.{generate_rsa_private, compose_rsa_public}
use tcp_handler.Common.Cipher.{InnerAesCipher, Cipher, new, get, reset, guarded, read_nonce}
use tcp_handler.Common.Head.{write_head, read_head}
use tcp_handler.Common.Last.{write_last, read_last, flush}
use tcp_handler.Common.Packet.{write_packet, read_packet}

module _ (t : Transport) (c : Crypto) where
  open t use {Writer, Reader, write, read}
  open c use {Seed, PrivateKey, PublicKey}

  unfoldable pub client_init : Bool → Seed → Str → Str → Action Writer StarterError PrivateKey
  client_init auto_flush seed identifier version = do
    (key, n, e) ← lift (generate_rsa_private c seed)
    write_head t compress_encryption identifier version
    starter (write u8_vec n)
    starter (write u8_vec e)
    starter (flush t auto_flush)
    pure key

  unfoldable pub server_init :
      Str → (Str → Bool) → Action Reader StarterError ((ℕ × Str) × PublicKey)
  server_init identifier version = do
    versions ← read_head t compress_encryption identifier version
    n ← starter (read u8_vec)
    e ← starter (read u8_vec)
    key ← lift (compose_rsa_public c n e)
    pure (versions, key)

  -- The closure of `client_start`: its `unwrap` panics on a key that does not have 32 bytes.
  unfoldable pub open_key : PrivateKey → Bytes → Bytes → Outcome StarterError (InnerAesCipher c)
  open_key key encrypted_aes nonce =
      and_then (map_err rsa (c.rsa_decrypt key encrypted_aes))
        (λ aes_key. and_then (unwrap (c.aes_new_from_slice aes_key)) (λ cipher. ok (cipher, nonce)))

  unfoldable pub client_start :
      Outcome StarterError PrivateKey → Action Reader StarterError (Cipher c)
  unfolding open_key
  client_start last = do
    key ← read_last t last
    encrypted_aes ← starter (read u8_vec)
    nonce ← starter (read (fixed 12))
    cipher ← lift (open_key key encrypted_aes nonce)
    pure (new cipher)

  -- `key` and `nonce` are what `generate_key` and `generate_nonce` draw.
  unfoldable pub server_start :
      Bool
      → Bytes
      → Bytes
      → Seed
      → Str
      → Str
      → Outcome StarterError ((ℕ × Str) × PublicKey)
      → Action Writer StarterError (Cipher c × ℕ × Str)
  server_start auto_flush aes_key nonce seed identifier version last = do
    ((va, vb), public) ← write_last t compress_encryption identifier version last
    encrypted_aes ← lift (map_err rsa (c.rsa_encrypt public seed aes_key))
    starter (write u8_vec encrypted_aes)
    starter (write (fixed 12) nonce)
    starter (flush t auto_flush)
    pure (new (c.aes_new aes_key, nonce), va, vb)

  module _ (d : Deflate) where
    -- The closure of `send`; `new_nonce` is what `generate_nonce` draws.
    unfoldable pub seal : ℕ → Bytes → Bytes → Action (Cipher c) PacketError Bytes
    seal level new_nonce message = do
      plain ← packet (lift (d.deflate level (new_nonce ++ message)))
      (cipher, nonce) ← get
      guarded do
        bytes ← lift (ok_or aes (c.encrypt_in_place cipher nonce plain))
        reset (cipher, new_nonce)
        pure bytes

    unfoldable pub send :
        Bool → Config → Bytes → Bytes → Action (Writer × Cipher c) PacketError (Unit {0})
    send auto_flush config new_nonce message = do
      let level = get_compression config
      bytes ← on_right (seal level new_nonce message)
      on_left (write_packet t config bytes)
      on_left (packet (flush t auto_flush))
      pure tt

    -- The closure of `recv`.
    unfoldable pub unseal : Bytes → Action (Cipher c) PacketError Bytes
    unseal bytes = do
      (cipher, nonce) ← get
      guarded do
        buffer ← lift (ok_or aes (c.decrypt_in_place cipher nonce bytes))
        plain ← packet (lift (d.inflate buffer))
        (new_nonce, message) ← packet (lift (read_nonce plain))
        reset (cipher, new_nonce)
        pure message

    unfoldable pub recv : Config → Action (Reader × Cipher c) PacketError Bytes
    recv config = do bytes ← on_left (read_packet t config); on_right (unseal bytes)
