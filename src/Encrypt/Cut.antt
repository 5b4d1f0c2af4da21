-- ===== src/Encrypt/Cut.antt =====
-- A handshake of the encrypt protocol whose bytes do not arrive whole.
use tcp_handler.Base.{◌≡◌, ◌≢◌, Bool, true, ◌++◌, [], length, ok, err}
use tcp_handler.Transport.{Bytes, Str, unexpected_eof, Transport, IsLawful}
use tcp_handler.Crypto.{Crypto, IsCrypto}
use tcp_handler.Common.Variant.{encryption}
use tcp_handler.Common.Errors.{StarterError}
use tcp_handler.Common.Decision.{Decision}
use tcp_handler.Common.KeyExchange.Opening.{opening_bytes}
use tcp_handler.Common.KeyExchange.Answer.{closing_bytes}
use tcp_handler.Common.KeyExchange.Cut.{Starves-server_init, Starves-client_start}
use tcp_handler.Encrypt.{server_init, client_start}

-- If the stream to a server ends within the head and the keys of a client that it would accept,
-- wherever that is, then `server_init` fails with the error of an unexpected end; and if the stream
-- to a client ends within the server's answer, an acceptance with the session key and the nonce
-- or any refusal, then `client_start` fails with that error.
pub encrypt_handshake_cut :
    {t : Transport} (l : IsLawful t) {c : Crypto} (ic : IsCrypto c) {seed : c.Seed}
    (k : c.PrivateKey) (generated : c.new_private seed 2048 ≡ ok k) (aes_key nonce : Bytes)
    {seed' : c.Seed} {x : Bytes} (encrypted : c.rsa_encrypt (ic.public k) seed' aes_key ≡ ok x)
    (key_len : length aes_key ≡ 32) (nonce_len : length nonce ≡ 12) (i v j w : Str)
    (accepts : Str → Bool) (d : Decision Str) (p q p' q' : Bytes) (sr cr : t.Reader)
    → accepts v ≡ true
    → opening_bytes l ic encryption generated i v ≡ p ++ q
    → q ≢ []
    → l.pending sr ≡ p
    → closing_bytes l ic encryption k aes_key nonce encrypted key_len nonce_len j w d ≡ p' ++ q'
    → q' ≢ []
    → l.pending cr ≡ p'
    → ((server_init t c i accepts sr).0 ≡ err (StarterError.io unexpected_eof))
      × ((client_start t c (ok k) cr).0 ≡ err (StarterError.io unexpected_eof))
unfolding server_init client_start
encrypt_handshake_cut l ic k generated aes_key nonce encrypted key_len nonce_len i v j w accepts d p
      q p' q' sr cr ac e ne h e' ne' h' =
    (
      (Starves-server_init l ic encryption k generated i v accepts ac).fails sr p q e ne h,
      (Starves-client_start l ic encryption k generated aes_key nonce encrypted key_len nonce_len j
            w d).fails
          cr p' q' e' ne' h',
    )
