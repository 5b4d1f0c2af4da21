-- ===== src/Streams/Encrypt/Server.antt =====
-- `TcpServerHandlerEncrypt`, the server's side.
use tcp_handler.Base.{Bool, Action, ◌>>=◌, pure, on_left, on_right}
use tcp_handler.Config.{Config}
use tcp_handler.Transport.{Bytes, Str, Transport}
use tcp_handler.Common.Errors.{StarterError, PacketError}
use tcp_handler.Encrypt
use tcp_handler.Streams.{TcpHandler}
use tcp_handler.Streams.Calls.{attempt, current, through}
use tcp_handler.Crypto.{Crypto}
use tcp_handler.Common.Cipher.{Cipher}

pub record TcpServerHandlerEncrypt (t : Transport) (c : Crypto) : Type 0 where
  pub reader : t.Reader
  pub writer : t.Writer
  pub cipher : Cipher c
  pub version : Str

module _ (t : Transport) (c : Crypto) where
  unfoldable pub new :
      Bool
      → Bytes
      → Bytes
      → c.Seed
      → Str
      → (Str → Bool)
      → Str
      → Action (t.Reader × t.Writer) StarterError (TcpServerHandlerEncrypt t c)
  new auto_flush aes_key nonce seed identifier version_prediction version = do
    init ← attempt (on_left (Encrypt.server_init t c identifier version_prediction))
    (cipher, _, application_version) ←
        on_right (Encrypt.server_start t c auto_flush aes_key nonce seed identifier version init)
    (reader, writer) ← current
    pure (record {
      reader = reader;
      writer = writer;
      cipher = cipher;
      version = application_version;
    })

  unfoldable pub into_inner : TcpServerHandlerEncrypt t c → t.Reader × t.Writer × Cipher c
  into_inner self = (self.reader, self.writer, self.cipher)

  unfoldable pub from_inner : t.Reader → t.Writer → Cipher c → Str → TcpServerHandlerEncrypt t c
  from_inner reader writer cipher version = record {
    reader = reader;
    writer = writer;
    cipher = cipher;
    version = version;
  }

  unfoldable pub send :
      Bool → Config → Bytes → Bytes → Action (TcpServerHandlerEncrypt t c) PacketError (Unit {0})
  send auto_flush config new_nonce message =
      through (λ (self : TcpServerHandlerEncrypt t c). (self.writer, self.cipher))
        (λ (writer, cipher) self. record self { writer = writer; cipher = cipher })
        (Encrypt.send t c auto_flush config new_nonce message)

  unfoldable pub recv : Config → Action (TcpServerHandlerEncrypt t c) PacketError Bytes
  recv config =
      through (λ (self : TcpServerHandlerEncrypt t c). (self.reader, self.cipher))
        (λ (reader, cipher) self. record self { reader = reader; cipher = cipher })
        (Encrypt.recv t c config)

  -- `impl_tcp_handler!`
  unfoldable pub handler : Bool → Config → TcpHandler (Bytes) (TcpServerHandlerEncrypt t c)
  handler auto_flush config = record {
    handler_send = λ new_nonce. send auto_flush config new_nonce;
    handler_recv = recv config;
  }

  unfoldable pub get_client_version : TcpServerHandlerEncrypt t c → Str
  get_client_version self = self.version
