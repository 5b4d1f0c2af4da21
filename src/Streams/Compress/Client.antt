-- ===== src/Streams/Compress/Client.antt =====
-- `TcpClientHandlerCompress`, the client's side.
use tcp_handler.Base.{Bool, Action, ◌>>=◌, ◌>>◌, pure, on_left, on_right}
use tcp_handler.Config.{Config}
use tcp_handler.Transport.{Bytes, Str, Transport}
use tcp_handler.Common.Errors.{StarterError, PacketError}
use tcp_handler.Compress
use tcp_handler.Streams.{TcpHandler}
use tcp_handler.Streams.Calls.{attempt, current, through}
use tcp_handler.Crypto.{Deflate}

pub record TcpClientHandlerCompress (t : Transport) : Type 0 where
  pub reader : t.Reader
  pub writer : t.Writer

module _ (t : Transport) where
  unfoldable pub new :
      Bool → Str → Str → Action (t.Reader × t.Writer) StarterError (TcpClientHandlerCompress t)
  new auto_flush identifier version = do
    init ← attempt (on_right (Compress.client_init t auto_flush identifier version))
    on_left (Compress.client_start t init)
    (reader, writer) ← current
    pure (record { reader = reader; writer = writer })

  unfoldable pub into_inner : TcpClientHandlerCompress t → t.Reader × t.Writer
  into_inner self = (self.reader, self.writer)

  unfoldable pub from_inner : t.Reader → t.Writer → TcpClientHandlerCompress t
  from_inner reader writer = record { reader = reader; writer = writer }

  unfoldable pub send :
      Deflate → Bool → Config → Bytes → Action (TcpClientHandlerCompress t) PacketError (Unit {0})
  send d auto_flush config message =
      through (λ (self : TcpClientHandlerCompress t). self.writer)
        (λ writer self. record self { writer = writer })
        (Compress.send t d auto_flush config message)

  unfoldable pub recv : Deflate → Config → Action (TcpClientHandlerCompress t) PacketError Bytes
  recv d config =
      through (λ (self : TcpClientHandlerCompress t). self.reader)
        (λ reader self. record self { reader = reader }) (Compress.recv t d config)

  -- `impl_tcp_handler!`
  unfoldable pub handler :
      Deflate → Bool → Config → TcpHandler (Unit {0}) (TcpClientHandlerCompress t)
  handler d auto_flush config = record {
    handler_send = λ _. send d auto_flush config;
    handler_recv = recv d config;
  }
