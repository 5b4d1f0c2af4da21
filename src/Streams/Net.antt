-- ===== src/Streams/Net.antt =====
-- `from_stream` of `impl_tcp_handler!` in src/streams/mod.rs for a server's handler, given by its
-- constructor; `from_stream` and `connect` for a client's are in the child `Client`.
pub mod Client
pub mod Refusal
use tcp_handler.Base.{Outcome, Action}
use tcp_handler.Transport.{IoError, Transport}
use tcp_handler.Common.Errors.{StarterError}

-- What is used of tokio: a stream's halves, the buffers around them, and `TcpStream::connect`.
pub record Net (t : Transport) : Type 1 where
  pub TcpStream : Type 0
  pub Addr : Type 0
  pub OwnedReadHalf : Type 0
  pub OwnedWriteHalf : Type 0
  pub into_split : TcpStream → OwnedReadHalf × OwnedWriteHalf
  pub buf_reader : OwnedReadHalf → t.Reader
  pub buf_writer : OwnedWriteHalf → t.Writer
  pub tcp_connect : Addr → Outcome IoError TcpStream

module _ {t : Transport} (net : Net t) {H : Type 0}
    (new : Action (t.Reader × t.Writer) StarterError H) where
  unfoldable pub from_stream : net.TcpStream → Outcome StarterError H × (t.Reader × t.Writer)
  from_stream stream =
      let (reader, writer) = net.into_split stream in
      new (net.buf_reader reader, net.buf_writer writer)
