-- ===== src/Streams/Raw/Client.antt =====
-- `TcpClientHandlerRaw`, the client's side.
use tcp_handler.Base.{Bool, Action, ◌>>=◌, ◌>>◌, pure, on_left, on_right}
use tcp_handler.Config.{Config}
use tcp_handler.Transport.{Bytes, Str, Transport}
use tcp_handler.Common.Errors.{StarterError, PacketError}
use tcp_handler.Raw
use tcp_handler.Streams.{TcpHandler}
use tcp_handler.Streams.Calls.{attempt, current, through}

pub record TcpClientHandlerRaw (t : Transport) : Type 0 where
  pub reader : t.Reader
  pub writer : t.Writer

module _ (t : Transport) where
  unfoldable pub new :
      Bool → Str → Str → Action (t.Reader × t.Writer) StarterError (TcpClientHandlerRaw t)
  new auto_flush identifier version = do
    init ← attempt (on_right (Raw.client_init t auto_flush identifier version))
    on_left (Raw.client_start t init)
    (reader, writer) ← current
    pure (record { reader = reader; writer = writer })

  unfoldable pub into_inner : TcpClientHandlerRaw t → t.Reader × t.Writer
  into_inner self = (self.reader, self.writer)

  unfoldable pub from_inner : t.Reader → t.Writer → TcpClientHandlerRaw t
  from_inner reader writer = record { reader = reader; writer = writer }

  unfoldable pub send :
      Bool → Config → Bytes → Action (TcpClientHandlerRaw t) PacketError (Unit {0})
  send auto_flush config message =
      through (λ (self : TcpClientHandlerRaw t). self.writer)
        (λ writer self. record self { writer = writer }) (Raw.send t auto_flush config message)

  unfoldable pub recv : Config → Action (TcpClientHandlerRaw t) PacketError Bytes
  recv config =
      through (λ (self : TcpClientHandlerRaw t). self.reader)
        (λ reader self. record self { reader = reader }) (Raw.recv t config)

  -- `impl_tcp_handler!`
  unfoldable pub handler : Bool → Config → TcpHandler (Unit {0}) (TcpClientHandlerRaw t)
  handler auto_flush config = record {
    handler_send = λ _. send auto_flush config;
    handler_recv = recv config;
  }
