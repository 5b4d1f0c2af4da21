-- ===== src/Streams/Encrypt/Connect.antt =====
-- Both constructors of the encrypt protocol's handlers, over one connection.
use tcp_handler.Common.Cipher.{Cipher}
use tcp_handler.Base.{ℕ, ◌≡◌, refl, ap, ◌∙◌, Bool, length, ok, ◌>>=◌}
use tcp_handler.Transport.{Bytes, Str, Transport, IsLawful}
use tcp_handler.Transport.Carries.{Carries}
use tcp_handler.Crypto.{Crypto, IsCrypto}
use tcp_handler.Common.Variant.{encryption}
use tcp_handler.Common.Decision.{decide, server_view, client_view}
use tcp_handler.Common.KeyExchange.Answer.{session, start_result}
use tcp_handler.Common.Last.{write_last, read_last}
use tcp_handler.Encrypt.{client_init, server_init, client_start, server_start}
use tcp_handler.Encrypt.Handshake.{encrypt_agreement}
use tcp_handler.Streams.Encrypt.Server.{TcpServerHandlerEncrypt}
use tcp_handler.Streams.Encrypt.Client.{TcpClientHandlerEncrypt}
use tcp_handler.Streams.Encrypt.Server
use tcp_handler.Streams.Encrypt.Client
use tcp_handler.Streams.Calls.{
  map_ok, map_ok-map_ok, map_ok-server_view, map_ok-client_view, server_calls, client_calls,
}

-- The handlers that the constructors return.
abbrev pub made_server :
    (t : Transport) (c : Crypto)
    → t.Reader × t.Writer
    → Cipher c × ℕ × Str
    → TcpServerHandlerEncrypt t c
made_server t c s p = record { reader = s.0; writer = s.1; cipher = p.0; version = p.2 }

abbrev pub made_client :
    (t : Transport) (c : Crypto) → t.Reader × t.Writer → Cipher c → TcpClientHandlerEncrypt t c
made_client t c s k = record { reader = s.0; writer = s.1; cipher = k }

-- The calls of the constructors.
pub server_ran :
    (t : Transport) (c : Crypto) (af : Bool) (aes_key nonce : Bytes) (seed' : c.Seed) (j w : Str)
    (accepts : Str → Bool) (sr : t.Reader) (sw : t.Writer)
    → Server.new t c af aes_key nonce seed' j accepts w (sr, sw) ≡ (
        let last = server_init t c j accepts sr in
        let done = server_start t c af aes_key nonce seed' j w last.0 sw in
        let s : t.Reader × t.Writer = (last.1, done.1) in (map_ok (made_server t c s) done.0, s))
unfolding Server.new server_start write_last ◌>>=◌
server_ran t c af aes_key nonce seed' j w accepts sr sw =
    server_calls (made_server t c) (server_init t c j accepts)
      (server_start t c af aes_key nonce seed' j w) sr sw refl

pub client_ran :
    (t : Transport) (c : Crypto) (af : Bool) (seed : c.Seed) (i v : Str) (cr : t.Reader)
    (cw : t.Writer)
    → Client.new t c af seed i v (cr, cw) ≡ (
        let last = client_init t c af seed i v cw in
        let done = client_start t c last.0 cr in
        let s : t.Reader × t.Writer = (done.1, last.1) in (map_ok (made_client t c s) done.0, s))
unfolding Client.new client_start read_last ◌>>=◌
client_ran t c af seed i v cr cw =
    client_calls (made_client t c) (client_init t c af seed i v) (client_start t c) cr cw refl

module _ {t : Transport} (l : IsLawful t) {c : Crypto} (ic : IsCrypto c) {seed : c.Seed}
    (k : c.PrivateKey) (generated : c.new_private seed 2048 ≡ ok k) (aes_key nonce : Bytes)
    {seed' : c.Seed} {x : Bytes} (encrypted : c.rsa_encrypt (ic.public k) seed' aes_key ≡ ok x)
    (key_len : length aes_key ≡ 32) (nonce_len : length nonce ≡ 12) (af : Bool) (i v j w : Str)
    (accepts : Str → Bool) {cw sw : t.Writer} {sr cr : t.Reader} (ch : l.Healthy cw)
    (sh : l.Healthy sw) (up : Carries l cw (Client.new t c af seed i v (cr, cw)).1.1 sr)
    (down : Carries l sw (Server.new t c af aes_key nonce seed' j accepts w (sr, sw)).1.1 cr) where
  -- Let a server's and a client's handler be constructed over one connection with healthy writers,
  -- each reader getting what the other side's writer accepted, where the client's key
  -- pair is generated, the session key has 32 bytes and encrypts under the public key, and the nonce
  -- has 12 bytes. Then both constructors return the views of one decision: where the client is
  -- accepted, both handlers hold the session's cipher, and the server's tells the client's version;
  -- otherwise both fail with the same kind of error, each naming the other side's value.
  pub encrypt_connected :
      (map_ok {B = Cipher c × Str}
          (λ (h : TcpServerHandlerEncrypt t c). (h.cipher, Server.get_client_version t c h))
          (Server.new t c af aes_key nonce seed' j accepts w (sr, sw)).0
        ≡ server_view
            (λ u. (session c aes_key nonce, u))
            (decide encryption i v encryption j accepts))
      × (map_ok
            (λ (h : TcpClientHandlerEncrypt t c). h.cipher)
            (Client.new t c af seed i v (cr, cw)).0
          ≡ client_view encryption j w
              (session c aes_key nonce)
              (decide encryption i v encryption j accepts))
  unfolding Server.get_client_version
  encrypt_connected =
      let a = server_ran t c af aes_key nonce seed' j w accepts sr sw in
      let b = client_ran t c af seed i v cr cw in
      let both =
        encrypt_agreement l ic k generated aes_key nonce encrypted key_len nonce_len af i v j w
          accepts ch sh (rw (ap (λ p. p.1.1) b) at up) (rw (ap (λ p. p.1.1) a) at down) in
      let d = decide encryption i v encryption j accepts in
      (
        rw (ap (λ p. p.0) a, both.0)
            (map_ok-map_ok _ _ (server_view (start_result (session c aes_key nonce)) d)
              ∙ map_ok-server_view _ (start_result (session c aes_key nonce)) d),
        rw (ap (λ p. p.0) b, both.1)
            (map_ok-map_ok _ _ (client_view encryption j w (session c aes_key nonce) d)
              ∙ map_ok-client_view _ encryption j w (session c aes_key nonce) d),
      )
