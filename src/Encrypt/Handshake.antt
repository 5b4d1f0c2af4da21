-- ===== src/Encrypt/Handshake.antt =====
-- The handshake of the encrypt protocol.
use tcp_handler.Base.{◌≡◌, ◌↔◌, Bool, true, length, ok}
use tcp_handler.Transport.{Bytes, Str, Transport, IsLawful}
use tcp_handler.Transport.Carries.{Carries}
use tcp_handler.Crypto.{Crypto, IsCrypto}
use tcp_handler.Common.Variant.{encryption}
use tcp_handler.Common.Decision.{decide, server_view, client_view, established_iff}
use tcp_handler.Common.KeyExchange.Answer.{session, start_result}
use tcp_handler.Common.KeyExchange.Agreement
use tcp_handler.Encrypt.{client_init, server_init, client_start, server_start}

module _ {t : Transport} (l : IsLawful t) {c : Crypto} (ic : IsCrypto c) {seed : c.Seed}
    (k : c.PrivateKey) (generated : c.new_private seed 2048 ≡ ok k) (aes_key nonce : Bytes)
    {seed' : c.Seed} {x : Bytes} (encrypted : c.rsa_encrypt (ic.public k) seed' aes_key ≡ ok x)
    (key_len : length aes_key ≡ 32) (nonce_len : length nonce ≡ 12) (af : Bool) (i v j w : Str)
    (accepts : Str → Bool) {cw sw : t.Writer} {sr cr : t.Reader} (ch : l.Healthy cw)
    (sh : l.Healthy sw) (up : Carries l cw (client_init t c af seed i v cw).1 sr)
    (down : Carries l sw
      (server_start t c af aes_key nonce seed' j w (server_init t c j accepts sr).0 sw).1
      cr) where
  -- Let client and server run the handshake over two healthy writers, each reader getting what the
  -- other side's writer accepted. Let the client's key pair be generated, the session key have 32
  -- bytes and encrypt under the public key, and the nonce have 12 bytes. Then both sides return the
  -- views of one decision: an acceptance gives both the same cipher with the same nonce, and gives
  -- the server the client's version; a refusal is the same kind of error on both sides, with the
  -- client's value in the server's error and the server's value in the client's.
  pub encrypt_agreement :
      ((server_start t c af aes_key nonce seed' j w (server_init t c j accepts sr).0 sw).0
        ≡ server_view
            (start_result (session c aes_key nonce))
            (decide encryption i v encryption j accepts))
      × ((client_start t c (client_init t c af seed i v cw).0 cr).0
          ≡ client_view encryption j w
              (session c aes_key nonce)
              (decide encryption i v encryption j accepts))
  unfolding client_init server_init client_start server_start
  encrypt_agreement =
      Agreement.agreement l ic encryption encryption k generated aes_key nonce encrypted key_len
        nonce_len af i v j w accepts ch sh up down

  -- Let client and server run the handshake over two healthy writers, each reader getting what the
  -- other side's writer accepted. Let the client's key pair be generated, the session key have 32
  -- bytes and encrypt under the public key, and the nonce have 12 bytes. Then the client returns the
  -- session's cipher exactly if it has the server's identifier and a version that the server's
  -- predicate accepts.
  pub encrypt_established :
      ((client_start t c (client_init t c af seed i v cw).0 cr).0 ≡ ok (session c aes_key nonce))
      ↔ ((i ≡ j) × (accepts v ≡ true))
  encrypt_established =
      rw (encrypt_agreement.1)
        (established_iff encryption i v j w accepts (session c aes_key nonce))
