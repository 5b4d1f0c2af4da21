-- ===== src/Streams/Encrypt/Client.antt =====
-- `TcpClientHandlerEncrypt`, the client's side.
use tcp_handler.Base.{Bool, Action, ◌>>=◌, pure, on_left, on_right}
use tcp_handler.Config.{Config}
use tcp_handler.Transport.{Bytes, Str, Transport}
use tcp_handler.Common.Errors.{StarterError, PacketError}
use tcp_handler.Encrypt
use tcp_handler.Streams.{TcpHandler}
use tcp_handler.Streams.Calls.{attempt, current, through}
use tcp_handler.Crypto.{Crypto}
use tcp_handler.Common.Cipher.{Cipher}

pub record TcpClientHandlerEncrypt (t : Transport) (c : Crypto) : Type 0 where
  pub reader : t.Reader
  pub writer : t.Writer
  pub cipher : Cipher c

module _ (t : Transport) (c : Crypto) where
  unfoldable pub new :
      Bool
      → c.Seed
      → Str
      → Str
      → Action (t.Reader × t.Writer) StarterError (TcpClientHandlerEncrypt t c)
  new auto_flush seed identifier version = do
    init ← attempt (on_right (Encrypt.client_init t c auto_flush seed identifier version))
    cipher ← on_left (Encrypt.client_start t c init)
    (reader, writer) ← current
    pure (record { reader = reader; writer = writer; cipher = cipher })

  unfoldable pub into_inner : TcpClientHandlerEncrypt t c → t.Reader × t.Writer × Cipher c
  into_inner self = (self.reader, self.writer, self.cipher)

  unfoldable pub from_inner : t.Reader → t.Writer → Cipher c → TcpClientHandlerEncrypt t c
  from_inner reader writer cipher = record { reader = reader; writer = writer; cipher = cipher }

  unfoldable pub send :
      Bool → Config → Bytes → Bytes → Action (TcpClientHandlerEncrypt t c) PacketError (Unit {0})
  send auto_flush config new_nonce message =
      through (λ (self : TcpClientHandlerEncrypt t c). (self.writer, self.cipher))
        (λ (writer, cipher) self. record self { writer = writer; cipher = cipher })
        (Encrypt.send t c auto_flush config new_nonce message)

  unfoldable pub recv : Config → Action (TcpClientHandlerEncrypt t c) PacketError Bytes
  recv config =
      through (λ (self : TcpClientHandlerEncrypt t c). (self.reader, self.cipher))
        (λ (reader, cipher) self. record self { reader = reader; cipher = cipher })
        (Encrypt.recv t c config)

  -- `impl_tcp_handler!`
  unfoldable pub handler : Bool → Config → TcpHandler (Bytes) (TcpClientHandlerEncrypt t c)
  handler auto_flush config = record {
    handler_send = λ new_nonce. send auto_flush config new_nonce;
    handler_recv = recv config;
  }
