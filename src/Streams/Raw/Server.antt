-- ===== src/Streams/Raw/Server.antt =====
-- `TcpServerHandlerRaw`, the server's side.
use tcp_handler.Base.{Bool, Action, ◌>>=◌, pure, on_left, on_right}
use tcp_handler.Config.{Config}
use tcp_handler.Transport.{Bytes, Str, Transport}
use tcp_handler.Common.Errors.{StarterError, PacketError}
use tcp_handler.Raw
use tcp_handler.Streams.{TcpHandler}
use tcp_handler.Streams.Calls.{attempt, current, through}

pub record TcpServerHandlerRaw (t : Transport) : Type 0 where
  pub reader : t.Reader
  pub writer : t.Writer
  pub version : Str

module _ (t : Transport) where
  unfoldable pub new :
      Bool
      → Str
      → (Str → Bool)
      → Str
      → Action (t.Reader × t.Writer) StarterError (TcpServerHandlerRaw t)
  new auto_flush identifier version_prediction version = do
    init ← attempt (on_left (Raw.server_init t identifier version_prediction))
    (_, application_version) ← on_right (Raw.server_start t auto_flush identifier version init)
    (reader, writer) ← current
    pure (record { reader = reader; writer = writer; version = application_version })

  unfoldable pub into_inner : TcpServerHandlerRaw t → t.Reader × t.Writer
  into_inner self = (self.reader, self.writer)

  unfoldable pub from_inner : t.Reader → t.Writer → Str → TcpServerHandlerRaw t
  from_inner reader writer version = record { reader = reader; writer = writer; version = version }

  unfoldable pub send :
      Bool → Config → Bytes → Action (TcpServerHandlerRaw t) PacketError (Unit {0})
  send auto_flush config message =
      through (λ (self : TcpServerHandlerRaw t). self.writer)
        (λ writer self. record self { writer = writer }) (Raw.send t auto_flush config message)

  unfoldable pub recv : Config → Action (TcpServerHandlerRaw t) PacketError Bytes
  recv config =
      through (λ (self : TcpServerHandlerRaw t). self.reader)
        (λ reader self. record self { reader = reader }) (Raw.recv t config)

  -- `impl_tcp_handler!`
  unfoldable pub handler : Bool → Config → TcpHandler (Unit {0}) (TcpServerHandlerRaw t)
  handler auto_flush config = record {
    handler_send = λ _. send auto_flush config;
    handler_recv = recv config;
  }

  unfoldable pub get_client_version : TcpServerHandlerRaw t → Str
  get_client_version self = self.version
