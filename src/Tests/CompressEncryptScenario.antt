-- ===== src/Tests/CompressEncryptScenario.antt =====
-- The test in src/protocols/compress_encrypt.rs.
use tcp_handler.Base.{◌≡◌, refl, ap, Bool, true, false, [], ◌∷◌, ok, ◌>>=◌, ◌>>◌, bytes_eq, on_left}
use tcp_handler.Transport.{Bytes, Str}
use tcp_handler.Transport.Memory.{memory, write, read, encode, flush as memory_flush}
use tcp_handler.Config.{default, get_compression}
use tcp_handler.Crypto.{Crypto, Deflate}
use tcp_handler.Common.Cipher.{get, reset, guarded, read_nonce, new}
use tcp_handler.Common.Channel.{holding}
use tcp_handler.Common.Keys.{generate_rsa_private, compose_rsa_public}
use tcp_handler.Common.Head.{write_head, read_head}
use tcp_handler.Common.Last.{write_last, read_last, flush}
use tcp_handler.Common.Variant.{to_bools, from_bools, variant_eq}
use tcp_handler.Common.Packet.{write_packet, read_packet, check_bytes_len}
use tcp_handler.Streams.Calls.{attempt}
use tcp_handler.CompressEncrypt
use tcp_handler.Tests.Duplex.{
  create, Test, at_client_writer, at_server_writer, at_client_reader, at_server_reader, try_call,
  assert_eq, written, read_string, repeated, repeated_then, Sealed, client_sends, server_sends,
  client_receives, server_receives, with_ciphers, try_sealed,
}
use tcp_handler.Tests.Scenarios.{identifier, version, accepts}
use tcp_handler.Tests.Setup.{toy, toy_deflate, aes_key, first_nonce, second_nonce, third_nonce}

-- "hello server in compress_encrypt." and "hello client in compress_encrypt."
abbrev compress_encrypt_to_server : Str
compress_encrypt_to_server =
    104 ∷ 101 ∷ 108 ∷ 108 ∷ 111 ∷ 32 ∷ 115 ∷ 101 ∷ 114 ∷ 118 ∷ 101 ∷ 114 ∷ 32 ∷ 105 ∷ 110 ∷ 32 ∷ 99
    ∷ 111 ∷ 109 ∷ 112 ∷ 114 ∷ 101 ∷ 115 ∷ 115 ∷ 95 ∷ 101 ∷ 110 ∷ 99 ∷ 114 ∷ 121 ∷ 112 ∷ 116 ∷ 46
    ∷ []

abbrev compress_encrypt_to_client : Str
compress_encrypt_to_client =
    104 ∷ 101 ∷ 108 ∷ 108 ∷ 111 ∷ 32 ∷ 99 ∷ 108 ∷ 105 ∷ 101 ∷ 110 ∷ 116 ∷ 32 ∷ 105 ∷ 110 ∷ 32 ∷ 99
    ∷ 111 ∷ 109 ∷ 112 ∷ 114 ∷ 101 ∷ 115 ∷ 115 ∷ 95 ∷ 101 ∷ 110 ∷ 99 ∷ 114 ∷ 121 ∷ 112 ∷ 116 ∷ 46
    ∷ []

module _ (c : Crypto) (d : Deflate) (auto_flush : Bool) where
  -- The body of the loop in `compress_encrypt::tests::connect`; what the calls of `send` draw is given.
  unfoldable pub compress_encrypt_exchange : Bytes → Bytes → Sealed c (Unit {0})
  compress_encrypt_exchange client_nonce server_nonce = do
    try_sealed (
        client_sends (
          CompressEncrypt.send memory c d auto_flush (default 6) client_nonce
            (written compress_encrypt_to_server)))
    reader ← try_sealed (server_receives (CompressEncrypt.recv memory c d (default 6)))
    message ← on_left (read_string reader)
    on_left (assert_eq compress_encrypt_to_server message)
    try_sealed (
        server_sends (
          CompressEncrypt.send memory c d auto_flush (default 6) server_nonce
            (written compress_encrypt_to_client)))
    reader' ← try_sealed (client_receives (CompressEncrypt.recv memory c d (default 6)))
    message' ← on_left (read_string reader')
    on_left (assert_eq compress_encrypt_to_client message')

  -- `compress_encrypt::tests::connect`
  unfoldable pub compress_encrypt_connect :
      c.Seed → c.Seed → Bytes → Bytes → Bytes → Bytes → Test (Unit {0})
  compress_encrypt_connect seed seed' aes_key nonce client_nonce server_nonce = do
    c_init ← try_call (
        attempt (
          at_client_writer
            (CompressEncrypt.client_init memory c auto_flush seed identifier version)))
    s_init ←
        try_call
          (attempt (at_server_reader (CompressEncrypt.server_init memory c identifier accepts)))
    (s_cipher, _, _) ← try_call (
        at_server_writer (
          CompressEncrypt.server_start memory c auto_flush aes_key nonce seed' identifier version
            s_init))
    c_cipher ← try_call (at_client_reader (CompressEncrypt.client_start memory c c_init))
    with_ciphers c_cipher s_cipher
        (repeated 10 (compress_encrypt_exchange client_nonce server_nonce))

-- With the nonce of the handshake, and with that of the server's last message.
compress_encrypt_exchange_passes :
    (auto_flush : Bool)
    → compress_encrypt_exchange toy toy_deflate auto_flush second_nonce third_nonce
        (create, (holding (aes_key, first_nonce), holding (aes_key, first_nonce)))
      ≡ (ok tt, (create, (holding (aes_key, third_nonce), holding (aes_key, third_nonce))))
unfolding compress_encrypt_exchange CompressEncrypt.send CompressEncrypt.recv CompressEncrypt.seal
    CompressEncrypt.unseal get reset guarded read_nonce ◌>>=◌ write_packet check_bytes_len default
    write flush memory_flush read_packet read bytes_eq encode get_compression
compress_encrypt_exchange_passes true = refl
compress_encrypt_exchange_passes false = refl

compress_encrypt_exchange_passes_again :
    (auto_flush : Bool)
    → compress_encrypt_exchange toy toy_deflate auto_flush second_nonce third_nonce
        (create, (holding (aes_key, third_nonce), holding (aes_key, third_nonce)))
      ≡ (ok tt, (create, (holding (aes_key, third_nonce), holding (aes_key, third_nonce))))
unfolding compress_encrypt_exchange CompressEncrypt.send CompressEncrypt.recv CompressEncrypt.seal
    CompressEncrypt.unseal get reset guarded read_nonce ◌>>=◌ write_packet check_bytes_len default
    write flush memory_flush read_packet read bytes_eq encode get_compression
compress_encrypt_exchange_passes_again true = refl
compress_encrypt_exchange_passes_again false = refl

compress_encrypt_connect_passes :
    (auto_flush : Bool)
    → (compress_encrypt_connect toy toy_deflate auto_flush 7 9 aes_key first_nonce second_nonce
        third_nonce create).0
      ≡ ok tt
unfolding compress_encrypt_connect CompressEncrypt.client_init CompressEncrypt.server_init
    CompressEncrypt.client_start CompressEncrypt.server_start CompressEncrypt.open_key new
    generate_rsa_private compose_rsa_public write_head read_head write_last read_last to_bools
    from_bools variant_eq ◌>>=◌ write_packet check_bytes_len default write flush memory_flush
    read_packet read bytes_eq encode get_compression
compress_encrypt_connect_passes true =
    ap (λ p. p.0)
      (repeated_then 9 (compress_encrypt_exchange toy toy_deflate true second_nonce third_nonce) _ _
        (compress_encrypt_exchange_passes true) (compress_encrypt_exchange_passes_again true))
compress_encrypt_connect_passes false =
    ap (λ p. p.0)
      (repeated_then 9 (compress_encrypt_exchange toy toy_deflate false second_nonce third_nonce) _
        _ (compress_encrypt_exchange_passes false) (compress_encrypt_exchange_passes_again false))
