-- ===== src/Tests/Messages.antt =====
-- Messages.
use tcp_handler.Common.Variant.{to_bools}
use tcp_handler.Common.Packet.{read_packet, check_bytes_len}
use tcp_handler.Base.{
  ◌≤◌, ◌≡◌, refl, true, List, [], ◌∷◌, ◌++◌, length, Outcome, ok, err, arith, ◌>>=◌, ◌⊎◌, ◌≢◌,
}
use tcp_handler.Transport.{Bytes, unexpected_eof}
use tcp_handler.Transport.Memory.{MemoryWriter, memory, read}
use tcp_handler.Transport.Memory.Proofs.{memory-IsLawful}
use tcp_handler.Common.Errors.{PacketError}
use tcp_handler.Common.Cipher.{Cipher}
use tcp_handler.Common.Channel.{holding}
use tcp_handler.Raw
use tcp_handler.Raw.Messages.{
  send_all, recv_all, recv_all-send_all, send_prefix, recv_bounded, recv_cut,
}
use tcp_handler.Raw.Delivery.{all_passed_on}
use tcp_handler.Compress
use tcp_handler.Compress.Messages.{recv-send_compressed}
use tcp_handler.Encrypt
use tcp_handler.Encrypt.Messages.{recv-send_encrypted}
use tcp_handler.CompressEncrypt
use tcp_handler.CompressEncrypt.Messages.{recv-send_compress_encrypted}
use tcp_handler.Tests.Setup.{
  toy, toy-IsCrypto, toy_deflate, toy-IsDeflate, fresh_writer, other_end, carried, small, hello,
  aes_key, first_nonce, second_nonce, test, one,
}

abbrev three : List Bytes
three = hello ∷ [] ∷ (1 ∷ 2 ∷ []) ∷ []

recv_all-send_all_example :
    ((send_all memory true small three fresh_writer).0 ≡ ok tt)
    × ((recv_all memory small 3 (other_end (send_all memory true small three fresh_writer).1)).0
        ≡ ok three)
unfolding memory-IsLawful
recv_all-send_all_example =
    recv_all-send_all memory-IsLawful true small (omega arith) three
      (omega arith, (omega arith, (omega arith, tt))) tt (carried _)

send_prefix_example :
    (p : Bytes) × (q : Bytes) × (5 ∷ hello ≡ p ++ q)
    × (other_end (Raw.send memory true small hello fresh_writer).1 ≡ p)
    × ((q ≡ []) ⊎ ((Raw.send memory true small hello fresh_writer).0 ≢ ok tt))
unfolding memory-IsLawful
send_prefix_example = send_prefix memory-IsLawful true small hello fresh_writer

recv_bounded_example : length hello ≤ 40
unfolding Raw.recv read_packet ◌>>=◌ read check_bytes_len
recv_bounded_example = recv_bounded memory-IsLawful true small (5 ∷ hello) hello refl

recv_cut_example :
    (Raw.recv memory small (5 ∷ 104 ∷ 101 ∷ [])).0 ≡ err (PacketError.io unexpected_eof)
unfolding memory-IsLawful
recv_cut_example =
    recv_cut memory-IsLawful true small hello (5 ∷ 104 ∷ 101 ∷ []) (108 ∷ 108 ∷ 111 ∷ [])
      (5 ∷ 104 ∷ 101 ∷ []) (omega arith) (omega arith) refl (λ e. cc) refl

abbrev head : Bytes
head = 208 ∷ 8 ∷ 166 ∷ 104 ∷ 0 ∷ 1 ∷ 0 ∷ 4 ∷ test ++ 1 ∷ one

all_passed_on_example :
    ((Raw.client_init memory true test one fresh_writer).1.sent ≡ head)
    × ((Raw.server_start memory true test one (ok (1, one)) fresh_writer).1.sent ≡ 3 ∷ [])
    × ((Raw.send memory true small hello fresh_writer).1.sent ≡ 5 ∷ hello)
unfolding memory-IsLawful to_bools
all_passed_on_example =
    all_passed_on memory-IsLawful {w = fresh_writer} test one test one small hello (omega arith)
      (omega arith) tt

recv-send_compressed_example :
    ((Compress.send memory toy_deflate true small hello fresh_writer).0 ≡ ok tt)
    × ((Compress.recv memory toy_deflate small
          (other_end (Compress.send memory toy_deflate true small hello fresh_writer).1)).0
        ≡ ok hello)
    × ((Compress.recv memory toy_deflate small
          (other_end (Compress.send memory toy_deflate true small hello fresh_writer).1)).1
        ≡ [])
unfolding memory-IsLawful carried
recv-send_compressed_example =
    recv-send_compressed memory-IsLawful toy-IsDeflate true small (omega arith) hello (6 ∷ hello)
      refl (omega arith) tt (carried _)

abbrev encrypted_sent : Outcome PacketError (Unit {0}) × (MemoryWriter × Cipher toy)
encrypted_sent =
    Encrypt.send memory toy true small second_nonce hello
      (fresh_writer, holding (aes_key, first_nonce))

recv-send_encrypted_example :
    (encrypted_sent.0 ≡ ok tt)
    × (encrypted_sent.1.1 ≡ holding (aes_key, second_nonce))
    × ((Encrypt.recv memory toy small
          (other_end encrypted_sent.1.0, holding (aes_key, first_nonce))).0
        ≡ ok hello)
    × ((Encrypt.recv memory toy small
          (other_end encrypted_sent.1.0, holding (aes_key, first_nonce))).1.1
        ≡ holding (aes_key, second_nonce))
unfolding memory-IsLawful
recv-send_encrypted_example =
    recv-send_encrypted memory-IsLawful toy-IsCrypto true small aes_key first_nonce second_nonce
      hello (12 ∷ first_nonce ++ second_nonce ++ hello) (omega arith) refl refl (omega arith) tt
      (carried encrypted_sent.1.0)

abbrev compress_encrypted_sent : Outcome PacketError (Unit {0}) × (MemoryWriter × Cipher toy)
compress_encrypted_sent =
    CompressEncrypt.send memory toy toy_deflate true small second_nonce hello
      (fresh_writer, holding (aes_key, first_nonce))

recv-send_compress_encrypted_example :
    (compress_encrypted_sent.0 ≡ ok tt)
    × (compress_encrypted_sent.1.1 ≡ holding (aes_key, second_nonce))
    × ((CompressEncrypt.recv memory toy toy_deflate small
          (other_end compress_encrypted_sent.1.0, holding (aes_key, first_nonce))).0
        ≡ ok hello)
    × ((CompressEncrypt.recv memory toy toy_deflate small
          (other_end compress_encrypted_sent.1.0, holding (aes_key, first_nonce))).1.1
        ≡ holding (aes_key, second_nonce))
unfolding memory-IsLawful
recv-send_compress_encrypted_example =
    recv-send_compress_encrypted memory-IsLawful toy-IsCrypto toy-IsDeflate true small aes_key
      first_nonce second_nonce hello (12 ∷ first_nonce ++ 6 ∷ second_nonce ++ hello) (omega arith)
      refl (record { plain = 6 ∷ second_nonce ++ hello; deflated = refl; encrypted = refl })
      (omega arith) tt (carried compress_encrypted_sent.1.0)
