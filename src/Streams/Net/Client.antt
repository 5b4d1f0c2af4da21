-- ===== src/Streams/Net/Client.antt =====
-- `from_stream` and `connect` of `impl_tcp_handler!` for a client's handler, given by its constructor.
use tcp_handler.Base.{Outcome, Action, map_err, and_then}
use tcp_handler.Transport.{Transport}
use tcp_handler.Common.Errors.{StarterError}
use tcp_handler.Streams.Net.{Net}

module _ {t : Transport} (net : Net t) {H : Type 0}
    (new : Action (t.Reader × t.Writer) StarterError H) where
  unfoldable pub from_stream : net.TcpStream → Outcome StarterError H × (t.Reader × t.Writer)
  from_stream stream =
      let (reader, writer) = net.into_split stream in
      new (net.buf_reader reader, net.buf_writer writer)

  unfoldable pub connect : net.Addr → Outcome StarterError H
  unfolding from_stream
  connect addr =
      and_then (map_err StarterError.io (net.tcp_connect addr)) (λ stream. (from_stream stream).0)
