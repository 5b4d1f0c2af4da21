-- ===== src/Streams/Net/Refusal.antt =====
-- A refusal by a server's handler that was made by `from_stream`, which buffers its writer.
use tcp_handler.Base.{◌≡◌, ap, ◌∙◌, Bool, err}
use tcp_handler.Transport.{Str, Transport, IsLawful}
use tcp_handler.Transport.Delivers.{IsLazy}
use tcp_handler.Common.Errors.{StarterError}
use tcp_handler.Raw.{server_init}
use tcp_handler.Raw.Delivery.{server_start-held_back}
use tcp_handler.Streams.Net.{Net, from_stream}
use tcp_handler.Streams.Raw.Server
use tcp_handler.Streams.Raw.Connect.{server_ran}

module _ {t : Transport} (l : IsLawful t) (z : IsLazy l) (net : Net t)
    (stream : net.TcpStream) where
  abbrev reader : t.Reader
  reader = net.buf_reader (net.into_split stream).0

  abbrev writer : t.Writer
  writer = net.buf_writer (net.into_split stream).1

  -- Let a writer hold back what it accepts until it is flushed, and let `server_init` refuse the
  -- client of a stream. Then `from_stream` for a server of the raw protocol makes the writer pass
  -- on nothing before it drops it: the client does not get the reason.
  pub from_stream-held_back :
      (af : Bool) (j w : Str) (accepts : Str → Bool) (e : StarterError)
      → (server_init t j accepts reader).0 ≡ err e
      → l.delivered (from_stream net (Server.new t af j accepts w) stream).1.1 ≡ l.delivered writer
  unfolding from_stream
  from_stream-held_back af j w accepts e h =
      let ran = server_ran t af j w accepts reader writer in
      ap (λ p. l.delivered p.1.1) ran ∙ rw h (server_start-held_back l {w = writer} af j w e z)
