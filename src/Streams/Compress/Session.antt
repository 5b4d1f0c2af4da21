-- ===== src/Streams/Compress/Session.antt =====
-- A whole session of the compress protocol's handlers.
use tcp_handler.Base.{◌^◌, ◌<◌, ◌≡◌, refl, List, Bool, true, ok}
use mathlib.Core.List.{map}
use tcp_handler.Config.{Config}
use tcp_handler.Transport.{Bytes, Str, Transport, IsLawful}
use tcp_handler.Transport.Carries.{Carries}
use tcp_handler.Crypto.{Deflate, IsDeflate}
use tcp_handler.Common.Variant.{compression}
use tcp_handler.Common.Errors.{StarterError}
use tcp_handler.Common.Decision.{accepted}
use tcp_handler.Common.Head.{magic_version}
use tcp_handler.Common.Head.Wire.{head_bytes, head_result, Emits-write_head}
use tcp_handler.Common.Head.Accepted.{Reads-read_head}
use tcp_handler.Common.Last.Wire.{answer_bytes, Reads-read_last}
use tcp_handler.Common.Exchange.{Emits-then_flush, Emits-answer}
use tcp_handler.Compress
use tcp_handler.Streams.Calls.{map_ok}
use tcp_handler.Streams.Dialogue.{request_all, serve_all}
use tcp_handler.Streams.Dialogue.Answered.{Rounds}
use tcp_handler.Streams.Session.{session, IsConnected}
use tcp_handler.Streams.Session.Joined.{conversed}
use tcp_handler.Streams.Compress.Server
use tcp_handler.Streams.Compress.Client
use tcp_handler.Streams.Compress.Server.{TcpServerHandlerCompress}
use tcp_handler.Streams.Compress.Client.{TcpClientHandlerCompress}
use tcp_handler.Streams.Compress.Connect.{made_server, made_client, server_ran, client_ran}
use tcp_handler.Streams.Compress.Dialogue.{Sealed, client-IsHandler, server-IsHandler}

module _ {t : Transport} (l : IsLawful t) {d : Deflate} (id : IsDeflate d) (af : Bool)
    (config : Config) (valid : config.max_packet_size < 2 ^ 64) (i v w : Str) (accepts : Str → Bool)
    (ac : accepts v ≡ true) where
  new-IsConnected :
      IsConnected l
        (client-IsHandler l id af config valid)
        (server-IsHandler l id af config valid)
        (Client.new t af i v)
        (Server.new t af i accepts w)
        tt
  unfolding client-IsHandler server-IsHandler Compress.client_init Compress.client_start
      Compress.server_init Compress.server_start
  new-IsConnected = record {
    Key = _;
    Cipher = _;
    Opened = _;
    Accepted = _;
    key = tt;
    cipher = tt;
    opened = (magic_version, v);
    accepted = (magic_version, v);
    opening = head_bytes l compression i v;
    closing = answer_bytes l compression i w (accepted v);
    client_init = Compress.client_init t af i v;
    client_start = Compress.client_start t;
    server_init = Compress.server_init t i accepts;
    server_start = Compress.server_start t af i w;
    client_made = made_client t;
    server_made = made_server t;
    client_ran = client_ran t af i v;
    server_ran = server_ran t af i w accepts;
    Emits-client_init =
        Emits-then_flush l StarterError.io af _ (λ _. tt) (Emits-write_head l compression i v);
    Reads-server_init = Reads-read_head l compression i v accepts ac;
    Emits-server_start = Emits-answer l compression i w af head_result (accepted v);
    Reads-client_start = Reads-read_last l compression i w tt (accepted v);
    client_writer = λ s x. refl;
    client_reader = λ s x. refl;
    client_ready = λ s. tt;
    server_writer = λ s z. refl;
    server_reader = λ s z. refl;
    server_ready = λ s. tt;
  }

  -- Let a server's and a client's handler be constructed over one connection with the same
  -- identifier, let the server's predicate accept the client's version, and let then the client's
  -- caller send any number of requests by `handler_send_recv`, while the server's caller calls
  -- `recv` and then `send` with the reply as often. Let the limit be a 64-bit number and the deflated
  -- messages keep to it, let the writers be healthy, and let each reader get what the other side's writer
  -- accepts from the first byte of the handshake on. Then both constructors succeed and no later
  -- call fails: the client gets the reply to each request, and the server the requests, in order.
  pub compress_session :
      (answer : Bytes → Bytes) (requests : List (Unit {0} × Bytes)) (draws : List (Unit {0}))
      {cw sw : t.Writer} {cr sr : t.Reader}
      → l.Healthy cw
      → l.Healthy sw
      → Rounds (Sealed l d config) answer tt requests draws tt
      → let client =
          session
            (λ (h : TcpClientHandlerCompress t). h.writer)
            (request_all (Client.handler t d af config) requests)
            (Client.new t af i v)
            (cr, cw) in
        let server =
          session
            (λ (h : TcpServerHandlerCompress t). h.writer)
            (serve_all (Server.handler t d af config) answer draws)
            (Server.new t af i accepts w)
            (sr, sw) in
        Carries l cw client.1 sr
        → Carries l sw server.1 cr
        → (map_ok (λ r. r.0) client.0 ≡ ok (ok (map (λ r. answer r.1) requests)))
          × (map_ok (λ r. r.0) server.0 ≡ ok (ok (map (λ r. r.1) requests)))
  unfolding client-IsHandler server-IsHandler
  compress_session answer requests draws ch sh rounds up down =
      let done =
        conversed l (client-IsHandler l id af config valid) (server-IsHandler l id af config valid)
          answer new-IsConnected requests draws ch sh up down rounds in
      (done.replies, done.requests)
