-- ===== src/Tests/Connections.antt =====
-- Handlers: two constructors over one connection.
use tcp_handler.Base.{◌≡◌, refl, true, [], ◌∷◌, ◌++◌, ok, bytes_eq, ◌>>=◌}
use tcp_handler.Transport.{Bytes, Str}
use tcp_handler.Transport.Memory.{memory, read}
use tcp_handler.Transport.Memory.Proofs.{memory-IsLawful}
use tcp_handler.Common.Cipher.{Cipher, new}
use tcp_handler.Common.Channel.{holding}
use tcp_handler.Common.Variant.{variant_eq, to_bools, from_bools}
use tcp_handler.Common.Head.{write_head, read_head}
use tcp_handler.Common.Last.{write_last, read_last, flush}
use tcp_handler.Common.Keys.{generate_rsa_private, compose_rsa_public}
use tcp_handler.Common.Errors.{invalid_identifier}
use tcp_handler.Raw
use tcp_handler.Compress
use tcp_handler.Encrypt
use tcp_handler.CompressEncrypt
use tcp_handler.Streams.Calls.{map_ok}
use tcp_handler.Streams.Raw.Server as RawServer
use tcp_handler.Streams.Raw.Client as RawClient
use tcp_handler.Streams.Raw.Server.{TcpServerHandlerRaw}
use tcp_handler.Streams.Raw.Client.{TcpClientHandlerRaw}
use tcp_handler.Streams.Raw.Connect.{raw_connected}
use tcp_handler.Streams.Compress.Server as CompressServer
use tcp_handler.Streams.Compress.Client as CompressClient
use tcp_handler.Streams.Compress.Server.{TcpServerHandlerCompress}
use tcp_handler.Streams.Compress.Client.{TcpClientHandlerCompress}
use tcp_handler.Streams.Compress.Connect.{compress_connected}
use tcp_handler.Streams.Encrypt.Server as EncryptServer
use tcp_handler.Streams.Encrypt.Client as EncryptClient
use tcp_handler.Streams.Encrypt.Server.{TcpServerHandlerEncrypt}
use tcp_handler.Streams.Encrypt.Client.{TcpClientHandlerEncrypt}
use tcp_handler.Streams.Encrypt.Connect.{encrypt_connected}
use tcp_handler.Streams.CompressEncrypt.Server as CompressEncryptServer
use tcp_handler.Streams.CompressEncrypt.Client as CompressEncryptClient
use tcp_handler.Streams.CompressEncrypt.Server.{TcpServerHandlerCompressEncrypt}
use tcp_handler.Streams.CompressEncrypt.Client.{TcpClientHandlerCompressEncrypt}
use tcp_handler.Streams.CompressEncrypt.Connect.{compress_encrypt_connected}
use tcp_handler.Streams.Net.{Net, from_stream}
use tcp_handler.Streams.Net.Refusal.{from_stream-held_back}
use tcp_handler.Tests.Setup.{
  toy, toy-IsCrypto, fresh_writer, test, one, any, aes_key, first_nonce, memory-IsLazy,
}

abbrev raw_opening : Bytes
raw_opening = 208 ∷ 8 ∷ 166 ∷ 104 ∷ 0 ∷ 1 ∷ 0 ∷ 4 ∷ test ++ 1 ∷ one

abbrev raw_answer : Bytes
raw_answer = 3 ∷ []

raw_connected_example :
    (map_ok
        (RawServer.get_client_version memory)
        (RawServer.new memory true test any one (raw_opening, fresh_writer)).0
      ≡ ok one)
    × (map_ok (λ _. tt) (RawClient.new memory true test one (raw_answer, fresh_writer)).0 ≡ ok tt)
unfolding memory-IsLawful variant_eq bytes_eq to_bools RawServer.new RawClient.new Raw.server_init
    Raw.client_init Raw.server_start Raw.client_start ◌>>=◌ write_head read_head write_last
    read_last flush from_bools read
raw_connected_example =
    raw_connected memory-IsLawful true test one test one any {cw = fresh_writer} {sw = fresh_writer}
      {sr = raw_opening} {cr = raw_answer} tt tt
      (record { sent = raw_opening; rest = []; wrote = refl; gets = refl })
      (record { sent = raw_answer; rest = []; wrote = refl; gets = refl })

abbrev compress_opening : Bytes
compress_opening = 208 ∷ 8 ∷ 166 ∷ 104 ∷ 0 ∷ 1 ∷ 1 ∷ 4 ∷ test ++ 1 ∷ one

abbrev compress_answer : Bytes
compress_answer = 3 ∷ []

compress_connected_example :
    (map_ok
        (CompressServer.get_client_version memory)
        (CompressServer.new memory true test any one (compress_opening, fresh_writer)).0
      ≡ ok one)
    × (map_ok (λ _. tt) (CompressClient.new memory true test one (compress_answer, fresh_writer)).0
        ≡ ok tt)
unfolding memory-IsLawful variant_eq bytes_eq to_bools CompressServer.new CompressClient.new
    Compress.server_init Compress.client_init Compress.server_start Compress.client_start ◌>>=◌
    write_head read_head write_last read_last flush from_bools read
compress_connected_example =
    compress_connected memory-IsLawful true test one test one any {cw = fresh_writer}
      {sw = fresh_writer} {sr = compress_opening} {cr = compress_answer} tt tt
      (record { sent = compress_opening; rest = []; wrote = refl; gets = refl })
      (record { sent = compress_answer; rest = []; wrote = refl; gets = refl })

abbrev encrypt_opening : Bytes
encrypt_opening = 208 ∷ 8 ∷ 166 ∷ 104 ∷ 0 ∷ 1 ∷ 2 ∷ 4 ∷ test ++ 1 ∷ one ++ 1 ∷ 7 ∷ 1 ∷ 3 ∷ []

abbrev encrypt_answer : Bytes
encrypt_answer = 3 ∷ 33 ∷ 7 ∷ aes_key ++ first_nonce

encrypt_connected_example :
    (map_ok {B = Cipher toy × Str}
        (λ (h : TcpServerHandlerEncrypt memory toy).
          (h.cipher, EncryptServer.get_client_version memory toy h))
        (EncryptServer.new memory toy true aes_key first_nonce 9 test any one
          (encrypt_opening, fresh_writer)).0
      ≡ ok (holding (aes_key, first_nonce), one))
    × (map_ok
          (λ (h : TcpClientHandlerEncrypt memory toy). h.cipher)
          (EncryptClient.new memory toy true 7 test one (encrypt_answer, fresh_writer)).0
        ≡ ok (holding (aes_key, first_nonce)))
unfolding memory-IsLawful variant_eq bytes_eq to_bools EncryptServer.new EncryptClient.new
    Encrypt.server_init Encrypt.client_init Encrypt.server_start Encrypt.client_start ◌>>=◌
    write_head read_head write_last read_last flush from_bools read new generate_rsa_private
    compose_rsa_public Encrypt.open_key
encrypt_connected_example =
    encrypt_connected memory-IsLawful toy-IsCrypto 7 refl aes_key first_nonce {seed' = 9} refl refl
      refl true test one test one any {cw = fresh_writer} {sw = fresh_writer} {sr = encrypt_opening}
      {cr = encrypt_answer} tt tt
      (record { sent = encrypt_opening; rest = []; wrote = refl; gets = refl })
      (record { sent = encrypt_answer; rest = []; wrote = refl; gets = refl })

abbrev compress_encrypt_opening : Bytes
compress_encrypt_opening =
    208 ∷ 8 ∷ 166 ∷ 104 ∷ 0 ∷ 1 ∷ 3 ∷ 4 ∷ test ++ 1 ∷ one ++ 1 ∷ 7 ∷ 1 ∷ 3 ∷ []

abbrev compress_encrypt_answer : Bytes
compress_encrypt_answer = 3 ∷ 33 ∷ 7 ∷ aes_key ++ first_nonce

compress_encrypt_connected_example :
    (map_ok {B = Cipher toy × Str}
        (λ (h : TcpServerHandlerCompressEncrypt memory toy).
          (h.cipher, CompressEncryptServer.get_client_version memory toy h))
        (CompressEncryptServer.new memory toy true aes_key first_nonce 9 test any one
          (compress_encrypt_opening, fresh_writer)).0
      ≡ ok (holding (aes_key, first_nonce), one))
    × (map_ok
          (λ (h : TcpClientHandlerCompressEncrypt memory toy). h.cipher)
          (CompressEncryptClient.new memory toy true 7 test one
            (compress_encrypt_answer, fresh_writer)).0
        ≡ ok (holding (aes_key, first_nonce)))
unfolding memory-IsLawful variant_eq bytes_eq to_bools CompressEncryptServer.new
    CompressEncryptClient.new CompressEncrypt.server_init CompressEncrypt.client_init
    CompressEncrypt.server_start CompressEncrypt.client_start ◌>>=◌ write_head read_head write_last
    read_last flush from_bools read new generate_rsa_private compose_rsa_public
    CompressEncrypt.open_key
compress_encrypt_connected_example =
    compress_encrypt_connected memory-IsLawful toy-IsCrypto 7 refl aes_key first_nonce {seed' = 9}
      refl refl refl true test one test one any {cw = fresh_writer} {sw = fresh_writer}
      {sr = compress_encrypt_opening} {cr = compress_encrypt_answer} tt tt
      (record { sent = compress_encrypt_opening; rest = []; wrote = refl; gets = refl })
      (record { sent = compress_encrypt_answer; rest = []; wrote = refl; gets = refl })

-- A stream is the bytes that come in.
abbrev loopback : Net memory
loopback = record {
  TcpStream = Bytes;
  Addr = Bytes;
  OwnedReadHalf = Bytes;
  OwnedWriteHalf = Unit {0};
  into_split = λ bytes. (bytes, tt);
  buf_reader = λ bytes. bytes;
  buf_writer = λ _. fresh_writer;
  tcp_connect = λ addr. ok addr;
}

from_stream-held_back_example :
    (from_stream loopback (RawServer.new memory true one any one) raw_opening).1.1.sent ≡ []
unfolding memory-IsLawful variant_eq bytes_eq to_bools Raw.server_init read_head ◌>>=◌ read
    from_bools
from_stream-held_back_example =
    from_stream-held_back memory-IsLawful memory-IsLazy loopback raw_opening true one one any
      (invalid_identifier test) refl
