-- ===== src/Streams/CompressEncrypt/Session.antt =====
-- A whole session of the compress_encrypt protocol's handlers.
use tcp_handler.Base.{◌^◌, ◌<◌, ◌≡◌, length, sym, ap, ◌∙◌, refl, List, Bool, true, ok}
use mathlib.Core.List.{map}
use tcp_handler.Config.{Config}
use tcp_handler.Transport.{Bytes, Str, Transport, IsLawful}
use tcp_handler.Transport.Carries.{Carries}
use tcp_handler.Common.Variant.{compress_encryption}
use tcp_handler.Common.Decision.{accepted}
use tcp_handler.Crypto.{Crypto, IsCrypto, Deflate, IsDeflate}
use tcp_handler.Common.Channel.{holding}
use tcp_handler.Common.KeyExchange.Opening.{
  opening_bytes, Emits-client_init, init_accepted, init_result,
}
use tcp_handler.Common.KeyExchange.Answer.{
  session as session_cipher, start_result, closing_bytes, Emits-server_start, Reads-client_start,
}
use tcp_handler.CompressEncrypt
use tcp_handler.Streams.Calls.{map_ok, map_ok-map_ok}
use tcp_handler.Streams.Dialogue.{request_all, serve_all}
use tcp_handler.Streams.Dialogue.Answered.{Rounds}
use tcp_handler.Streams.Session.{session, IsConnected}
use tcp_handler.Streams.Session.Joined.{conversed}
use tcp_handler.Streams.CompressEncrypt.Server
use tcp_handler.Streams.CompressEncrypt.Client
use tcp_handler.Streams.CompressEncrypt.Server.{TcpServerHandlerCompressEncrypt}
use tcp_handler.Streams.CompressEncrypt.Client.{TcpClientHandlerCompressEncrypt}
use tcp_handler.Streams.CompressEncrypt.Connect.{made_server, made_client, server_ran, client_ran}
use tcp_handler.Streams.CompressEncrypt.Dialogue.{Sealed, client-IsHandler, server-IsHandler}

module _ {t : Transport} (l : IsLawful t) {c : Crypto} (ic : IsCrypto c) {d : Deflate}
    (id : IsDeflate d) (af : Bool) (config : Config) (valid : config.max_packet_size < 2 ^ 64)
    {seed : c.Seed} (k : c.PrivateKey) (generated : c.new_private seed 2048 ≡ ok k)
    (aes_key nonce : Bytes) {seed' : c.Seed} {x : Bytes}
    (encrypted : c.rsa_encrypt (ic.public k) seed' aes_key ≡ ok x) (key_len : length aes_key ≡ 32)
    (nonce_len : length nonce ≡ 12) (i v w : Str) (accepts : Str → Bool)
    (ac : accepts v ≡ true) where
  new-IsConnected :
      IsConnected l
        (client-IsHandler l ic id af config valid)
        (server-IsHandler l ic id af config valid)
        (Client.new t c af seed i v)
        (Server.new t c af aes_key nonce seed' i accepts w)
        (c.aes_new aes_key, nonce)
  unfolding client-IsHandler server-IsHandler CompressEncrypt.client_init
      CompressEncrypt.client_start CompressEncrypt.server_init CompressEncrypt.server_start
  new-IsConnected = record {
    Key = _;
    Cipher = _;
    Opened = _;
    Accepted = _;
    key = k;
    cipher = session_cipher c aes_key nonce;
    opened = init_result (ic.public k) v;
    accepted = start_result (session_cipher c aes_key nonce) v;
    opening = opening_bytes l ic compress_encryption generated i v;
    closing =
        closing_bytes l ic compress_encryption k aes_key nonce encrypted key_len nonce_len i w
          (accepted v);
    client_init = CompressEncrypt.client_init t c af seed i v;
    client_start = CompressEncrypt.client_start t c;
    server_init = CompressEncrypt.server_init t c i accepts;
    server_start = CompressEncrypt.server_start t c af aes_key nonce seed' i w;
    client_made = made_client t c;
    server_made = made_server t c;
    client_ran = client_ran t c af seed i v;
    server_ran = server_ran t c af aes_key nonce seed' i w accepts;
    Emits-client_init = Emits-client_init l ic compress_encryption generated af i v;
    Reads-server_init = init_accepted l ic compress_encryption generated i v accepts ac;
    Emits-server_start =
        Emits-server_start l ic compress_encryption k aes_key nonce encrypted key_len nonce_len af i
          w (accepted v);
    Reads-client_start =
        Reads-client_start l ic compress_encryption k aes_key nonce encrypted key_len nonce_len i w
          (accepted v);
    client_writer = λ s x. refl;
    client_reader = λ s x. refl;
    client_ready = λ s. refl;
    server_writer = λ s z. refl;
    server_reader = λ s z. refl;
    server_ready = λ s. refl;
  }

  -- Let a server's and a client's handler be constructed over one connection with the same
  -- identifier, let the server's predicate accept the client's version, let the client's key pair
  -- be generated, the session key have 32 bytes and encrypt under the public key, and the nonce have
  -- 12 bytes. Let then the client's caller send any number of requests by `handler_send_recv`, while
  -- the server's caller calls `recv` and then `send` with the reply as often, where each message,
  -- with a new nonce of 12 bytes, is deflated and sealed under the nonce of the one before, the first under
  -- the nonce of the handshake, to a packet within the limit, a 64-bit number. Let the writers be
  -- healthy, and let each reader get what the other side's writer accepts from the first byte of the
  -- handshake on. Then both constructors succeed and no later call fails: the client gets the reply
  -- to each request, and the server the requests, in order; and at the end both handlers hold the
  -- same cipher with the same nonce, which is the one that the last message leads to.
  pub compress_encrypt_session :
      (answer : Bytes → Bytes) (k' : c.Aes × Bytes) (requests : List (Bytes × Bytes))
      (draws : List Bytes) {cw sw : t.Writer} {cr sr : t.Reader}
      → l.Healthy cw
      → l.Healthy sw
      → Rounds (Sealed l c d config) answer (c.aes_new aes_key, nonce) requests draws k'
      → let client =
          session
            (λ (h : TcpClientHandlerCompressEncrypt t c). h.writer)
            (request_all (Client.handler t c d af config) requests)
            (Client.new t c af seed i v)
            (cr, cw) in
        let server =
          session
            (λ (h : TcpServerHandlerCompressEncrypt t c). h.writer)
            (serve_all (Server.handler t c d af config) answer draws)
            (Server.new t c af aes_key nonce seed' i accepts w)
            (sr, sw) in
        Carries l cw client.1 sr
        → Carries l sw server.1 cr
        → (map_ok (λ r. r.0) client.0 ≡ ok (ok (map (λ r. answer r.1) requests)))
          × (map_ok (λ r. r.0) server.0 ≡ ok (ok (map (λ r. r.1) requests)))
          × (map_ok (λ r. r.1.cipher) client.0 ≡ ok (holding k'))
          × (map_ok (λ r. r.1.cipher) server.0 ≡ ok (holding k'))
  unfolding client-IsHandler server-IsHandler
  compress_encrypt_session answer k' requests draws ch sh rounds up down =
      let done =
        conversed l (client-IsHandler l ic id af config valid)
          (server-IsHandler l ic id af config valid) answer new-IsConnected requests draws ch sh up
          down rounds in
      (
        done.replies,
        done.requests,
        sym (map_ok-map_ok (λ (h : TcpClientHandlerCompressEncrypt t c). h.cipher) (λ r. r.1) _)
            ∙ ap (map_ok (λ (h : TcpClientHandlerCompressEncrypt t c). h.cipher)) done.client_left
            ∙ ap ok done.client_holds,
        sym (map_ok-map_ok (λ (h : TcpServerHandlerCompressEncrypt t c). h.cipher) (λ r. r.1) _)
            ∙ ap (map_ok (λ (h : TcpServerHandlerCompressEncrypt t c). h.cipher)) done.server_left
            ∙ ap ok done.server_holds,
      )
