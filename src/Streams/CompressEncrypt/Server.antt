-- ===== src/Streams/CompressEncrypt/Server.antt =====
-- `TcpServerHandlerCompressEncrypt`, the server's side.
use tcp_handler.Base.{Bool, Action, ◌>>=◌, pure, on_left, on_right}
use tcp_handler.Config.{Config}
use tcp_handler.Transport.{Bytes, Str, Transport}
use tcp_handler.Common.Errors.{StarterError, PacketError}
use tcp_handler.CompressEncrypt
use tcp_handler.Streams.{TcpHandler}
use tcp_handler.Streams.Calls.{attempt, current, through}
use tcp_handler.Crypto.{Crypto, Deflate}
use tcp_handler.Common.Cipher.{Cipher}

pub record TcpServerHandlerCompressEncrypt (t : Transport) (c : Crypto) : Type 0 where
  pub reader : t.Reader
  pub writer : t.Writer
  pub cipher : Cipher c
  pub version : Str

module _ (t : Transport) (c : Crypto) where
  unfoldable pub new :
      Bool
      → Bytes
      → Bytes
      → c.Seed
      → Str
      → (Str → Bool)
      → Str
      → Action (t.Reader × t.Writer) StarterError (TcpServerHandlerCompressEncrypt t c)
  new auto_flush aes_key nonce seed identifier version_prediction version = do
    init ← attempt (on_left (CompressEncrypt.server_init t c identifier version_prediction))
    (cipher, _, application_version) ←
        on_right
          (CompressEncrypt.server_start t c auto_flush aes_key nonce seed identifier version init)
    (reader, writer) ← current
    pure (record {
      reader = reader;
      writer = writer;
      cipher = cipher;
      version = application_version;
    })

  unfoldable pub into_inner : TcpServerHandlerCompressEncrypt t c → t.Reader × t.Writer × Cipher c
  into_inner self = (self.reader, self.writer, self.cipher)

  unfoldable pub from_inner :
      t.Reader → t.Writer → Cipher c → Str → TcpServerHandlerCompressEncrypt t c
  from_inner reader writer cipher version = record {
    reader = reader;
    writer = writer;
    cipher = cipher;
    version = version;
  }

  unfoldable pub send :
      Deflate
      → Bool
      → Config
      → Bytes
      → Bytes
      → Action (TcpServerHandlerCompressEncrypt t c) PacketError (Unit {0})
  send d auto_flush config new_nonce message =
      through (λ (self : TcpServerHandlerCompressEncrypt t c). (self.writer, self.cipher))
        (λ (writer, cipher) self. record self { writer = writer; cipher = cipher })
        (CompressEncrypt.send t c d auto_flush config new_nonce message)

  unfoldable pub recv :
      Deflate → Config → Action (TcpServerHandlerCompressEncrypt t c) PacketError Bytes
  recv d config =
      through (λ (self : TcpServerHandlerCompressEncrypt t c). (self.reader, self.cipher))
        (λ (reader, cipher) self. record self { reader = reader; cipher = cipher })
        (CompressEncrypt.recv t c d config)

  -- `impl_tcp_handler!`
  unfoldable pub handler :
      Deflate → Bool → Config → TcpHandler (Bytes) (TcpServerHandlerCompressEncrypt t c)
  handler d auto_flush config = record {
    handler_send = λ new_nonce. send d auto_flush config new_nonce;
    handler_recv = recv d config;
  }

  unfoldable pub get_client_version : TcpServerHandlerCompressEncrypt t c → Str
  get_client_version self = self.version
