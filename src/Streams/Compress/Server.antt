-- ===== src/Streams/Compress/Server.antt =====
-- `TcpServerHandlerCompress`, the server's side.
use tcp_handler.Base.{Bool, Action, ◌>>=◌, pure, on_left, on_right}
use tcp_handler.Config.{Config}
use tcp_handler.Transport.{Bytes, Str, Transport}
use tcp_handler.Common.Errors.{StarterError, PacketError}
use tcp_handler.Compress
use tcp_handler.Streams.{TcpHandler}
use tcp_handler.Streams.Calls.{attempt, current, through}
use tcp_handler.Crypto.{Deflate}

pub record TcpServerHandlerCompress (t : Transport) : Type 0 where
  pub reader : t.Reader
  pub writer : t.Writer
  pub version : Str

module _ (t : Transport) where
  unfoldable pub new :
      Bool
      → Str
      → (Str → Bool)
      → Str
      → Action (t.Reader × t.Writer) StarterError (TcpServerHandlerCompress t)
  new auto_flush identifier version_prediction version = do
    init ← attempt (on_left (Compress.server_init t identifier version_prediction))
    (_, application_version) ← on_right (Compress.server_start t auto_flush identifier version init)
    (reader, writer) ← current
    pure (record { reader = reader; writer = writer; version = application_version })

  unfoldable pub into_inner : TcpServerHandlerCompress t → t.Reader × t.Writer
  into_inner self = (self.reader, self.writer)

  unfoldable pub from_inner : t.Reader → t.Writer → Str → TcpServerHandlerCompress t
  from_inner reader writer version = record { reader = reader; writer = writer; version = version }

  unfoldable pub send :
      Deflate → Bool → Config → Bytes → Action (TcpServerHandlerCompress t) PacketError (Unit {0})
  send d auto_flush config message =
      through (λ (self : TcpServerHandlerCompress t). self.writer)
        (λ writer self. record self { writer = writer })
        (Compress.send t d auto_flush config message)

  unfoldable pub recv : Deflate → Config → Action (TcpServerHandlerCompress t) PacketError Bytes
  recv d config =
      through (λ (self : TcpServerHandlerCompress t). self.reader)
        (λ reader self. record self { reader = reader }) (Compress.recv t d config)

  -- `impl_tcp_handler!`
  unfoldable pub handler :
      Deflate → Bool → Config → TcpHandler (Unit {0}) (TcpServerHandlerCompress t)
  handler d auto_flush config = record {
    handler_send = λ _. send d auto_flush config;
    handler_recv = recv d config;
  }

  unfoldable pub get_client_version : TcpServerHandlerCompress t → Str
  get_client_version self = self.version
