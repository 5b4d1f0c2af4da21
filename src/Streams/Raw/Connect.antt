-- ===== src/Streams/Raw/Connect.antt =====
-- Both constructors of the raw protocol's handlers, over one connection.
use tcp_handler.Base.{ℕ, ◌≡◌, refl, ap, ◌∙◌, Bool, ◌>>=◌}
use tcp_handler.Transport.{Str, Transport, IsLawful}
use tcp_handler.Transport.Carries.{Carries}
use tcp_handler.Common.Variant.{raw}
use tcp_handler.Common.Decision.{decide, server_view, client_view}
use tcp_handler.Common.Head.Wire.{head_result}
use tcp_handler.Common.Last.{write_last, read_last}
use tcp_handler.Raw.{client_init, server_init, client_start, server_start}
use tcp_handler.Raw.Handshake.{raw_agreement}
use tcp_handler.Streams.Raw.Server.{TcpServerHandlerRaw}
use tcp_handler.Streams.Raw.Client.{TcpClientHandlerRaw}
use tcp_handler.Streams.Raw.Server
use tcp_handler.Streams.Raw.Client
use tcp_handler.Streams.Calls.{
  map_ok, map_ok-map_ok, map_ok-server_view, map_ok-client_view, server_calls, client_calls,
}

-- The handlers that the constructors return.
abbrev pub made_server : (t : Transport) → t.Reader × t.Writer → ℕ × Str → TcpServerHandlerRaw t
made_server t s p = record { reader = s.0; writer = s.1; version = p.1 }

abbrev pub made_client : (t : Transport) → t.Reader × t.Writer → Unit {0} → TcpClientHandlerRaw t
made_client t s _ = record { reader = s.0; writer = s.1 }

-- The calls of the constructors.
pub server_ran :
    (t : Transport) (af : Bool) (j w : Str) (accepts : Str → Bool) (sr : t.Reader) (sw : t.Writer)
    → Server.new t af j accepts w (sr, sw) ≡ (
        let last = server_init t j accepts sr in
        let done = server_start t af j w last.0 sw in
        let s : t.Reader × t.Writer = (last.1, done.1) in (map_ok (made_server t s) done.0, s))
unfolding Server.new server_start write_last ◌>>=◌
server_ran t af j w accepts sr sw =
    server_calls (made_server t) (server_init t j accepts) (server_start t af j w) sr sw refl

pub client_ran :
    (t : Transport) (af : Bool) (i v : Str) (cr : t.Reader) (cw : t.Writer)
    → Client.new t af i v (cr, cw) ≡ (
        let last = client_init t af i v cw in
        let done = client_start t last.0 cr in
        let s : t.Reader × t.Writer = (done.1, last.1) in (map_ok (made_client t s) done.0, s))
unfolding Client.new client_start read_last ◌>>=◌
client_ran t af i v cr cw =
    client_calls (made_client t) (client_init t af i v) (client_start t) cr cw refl

module _ {t : Transport} (l : IsLawful t) (af : Bool) (i v j w : Str) (accepts : Str → Bool)
    {cw sw : t.Writer} {sr cr : t.Reader} (ch : l.Healthy cw) (sh : l.Healthy sw)
    (up : Carries l cw (Client.new t af i v (cr, cw)).1.1 sr)
    (down : Carries l sw (Server.new t af j accepts w (sr, sw)).1.1 cr) where
  -- Let a server's and a client's handler be constructed over one connection with healthy writers,
  -- each reader getting what the other side's writer accepted. Then both constructors return the
  -- views of one decision: where the client is accepted, both succeed, and the server's handler tells
  -- the client's version; otherwise both fail with the same kind of error, each naming the other
  -- side's value.
  pub raw_connected :
      (map_ok (Server.get_client_version t) (Server.new t af j accepts w (sr, sw)).0
        ≡ server_view (λ u. u) (decide raw i v raw j accepts))
      × (map_ok (λ _. tt) (Client.new t af i v (cr, cw)).0
          ≡ client_view raw j w tt (decide raw i v raw j accepts))
  unfolding Server.get_client_version
  raw_connected =
      let a = server_ran t af j w accepts sr sw in
      let b = client_ran t af i v cr cw in
      let both =
        raw_agreement l af i v j w accepts ch sh (rw (ap (λ p. p.1.1) b) at up)
          (rw (ap (λ p. p.1.1) a) at down) in
      let d = decide raw i v raw j accepts in
      (
        rw (ap (λ p. p.0) a, both.0)
            (map_ok-map_ok _ _ (server_view head_result d) ∙ map_ok-server_view _ head_result d),
        rw (ap (λ p. p.0) b, both.1)
            (map_ok-map_ok _ _ (client_view raw j w tt d) ∙ map_ok-client_view _ raw j w tt d),
      )
