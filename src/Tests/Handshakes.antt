-- ===== src/Tests/Handshakes.antt =====
-- Handshakes.
use tcp_handler.Common.Errors.{invalid_protocol}
use tcp_handler.Base.{◌≡◌, ◌≢◌, refl, true, ok, bytes_eq, err}
use tcp_handler.Transport.Memory.{MemoryWriter, memory}
use tcp_handler.Transport.Memory.Proofs.{memory-IsLawful}
use tcp_handler.Common.Variant.{variant_eq, compression, encryption}
use tcp_handler.Common.Channel.{holding}
use tcp_handler.Raw
use tcp_handler.Raw.Handshake.{raw_agreement}
use tcp_handler.Compress
use tcp_handler.Mismatch.{ClientSide, ServerSide, client_side, server_side}
use tcp_handler.Mismatch.Refused.{mismatch_refused}
use tcp_handler.Compress.Handshake.{compress_agreement}
use tcp_handler.Encrypt
use tcp_handler.Encrypt.Handshake.{encrypt_agreement}
use tcp_handler.CompressEncrypt
use tcp_handler.CompressEncrypt.Handshake.{compress_encrypt_agreement}
use tcp_handler.Tests.Setup.{
  toy, toy-IsCrypto, fresh_writer, other_end, carried, test, one, any, aes_key, first_nonce,
}

abbrev raw_head : MemoryWriter
raw_head = (Raw.client_init memory true test one fresh_writer).1

abbrev raw_answer : MemoryWriter
raw_answer =
    (Raw.server_start memory true test one (Raw.server_init memory test any (other_end raw_head)).0
      fresh_writer).1

raw_agreement_example :
    ((Raw.server_start memory true test one
        (Raw.server_init memory test any (other_end raw_head)).0
        fresh_writer).0
      ≡ ok (1, one))
    × ((Raw.client_start memory
          (Raw.client_init memory true test one fresh_writer).0
          (other_end raw_answer)).0
        ≡ ok tt)
unfolding variant_eq memory-IsLawful bytes_eq
raw_agreement_example =
    raw_agreement memory-IsLawful true test one test one any tt tt (carried raw_head)
      (carried raw_answer)

abbrev compress_head : MemoryWriter
compress_head = (Compress.client_init memory true test one fresh_writer).1

abbrev compress_answer : MemoryWriter
compress_answer =
    (Compress.server_start memory true test one
      (Compress.server_init memory test any (other_end compress_head)).0 fresh_writer).1

compress_agreement_example :
    ((Compress.server_start memory true test one
        (Compress.server_init memory test any (other_end compress_head)).0
        fresh_writer).0
      ≡ ok (1, one))
    × ((Compress.client_start memory
          (Compress.client_init memory true test one fresh_writer).0
          (other_end compress_answer)).0
        ≡ ok tt)
unfolding variant_eq memory-IsLawful bytes_eq
compress_agreement_example =
    compress_agreement memory-IsLawful true test one test one any tt tt (carried compress_head)
      (carried compress_answer)

abbrev encrypt_head : MemoryWriter
encrypt_head = (Encrypt.client_init memory toy true 7 test one fresh_writer).1

abbrev encrypt_answer : MemoryWriter
encrypt_answer =
    (Encrypt.server_start memory toy true aes_key first_nonce 9 test one
      (Encrypt.server_init memory toy test any (other_end encrypt_head)).0 fresh_writer).1

encrypt_agreement_example :
    ((Encrypt.server_start memory toy true aes_key first_nonce 9 test one
        (Encrypt.server_init memory toy test any (other_end encrypt_head)).0
        fresh_writer).0
      ≡ ok (holding (aes_key, first_nonce), 1, one))
    × ((Encrypt.client_start memory toy
          (Encrypt.client_init memory toy true 7 test one fresh_writer).0
          (other_end encrypt_answer)).0
        ≡ ok (holding (aes_key, first_nonce)))
unfolding variant_eq memory-IsLawful bytes_eq toy-IsCrypto
encrypt_agreement_example =
    encrypt_agreement memory-IsLawful toy-IsCrypto 7 refl aes_key first_nonce {seed' = 9} refl refl
      refl true test one test one any tt tt (carried encrypt_head) (carried encrypt_answer)

abbrev compress_encrypt_head : MemoryWriter
compress_encrypt_head = (CompressEncrypt.client_init memory toy true 7 test one fresh_writer).1

abbrev compress_encrypt_answer : MemoryWriter
compress_encrypt_answer =
    (CompressEncrypt.server_start memory toy true aes_key first_nonce 9 test one
      (CompressEncrypt.server_init memory toy test any (other_end compress_encrypt_head)).0
      fresh_writer).1

compress_encrypt_agreement_example :
    ((CompressEncrypt.server_start memory toy true aes_key first_nonce 9 test one
        (CompressEncrypt.server_init memory toy test any (other_end compress_encrypt_head)).0
        fresh_writer).0
      ≡ ok (holding (aes_key, first_nonce), 1, one))
    × ((CompressEncrypt.client_start memory toy
          (CompressEncrypt.client_init memory toy true 7 test one fresh_writer).0
          (other_end compress_encrypt_answer)).0
        ≡ ok (holding (aes_key, first_nonce)))
unfolding variant_eq memory-IsLawful bytes_eq toy-IsCrypto
compress_encrypt_agreement_example =
    compress_encrypt_agreement memory-IsLawful toy-IsCrypto 7 refl aes_key first_nonce {seed' = 9}
      refl refl refl true test one test one any tt tt (carried compress_encrypt_head)
      (carried compress_encrypt_answer)

-- A client of the encrypt protocol at a server of the compress protocol.
abbrev encrypting : ClientSide memory
encrypting = client_side memory toy true 7 test one encryption

abbrev compressing : ServerSide memory
compressing = server_side memory toy true aes_key first_nonce 9 test one any compression

abbrev mismatch_head : MemoryWriter
mismatch_head = (encrypting.init fresh_writer).1

abbrev mismatch_answer : MemoryWriter
mismatch_answer = (compressing.start (compressing.init (other_end mismatch_head)).0 fresh_writer).1

encryption-ne-compression : encryption ≢ compression
encryption-ne-compression e = cc

mismatch_refused_example :
    ((compressing.start (compressing.init (other_end mismatch_head)).0 fresh_writer).0
      ≡ err (invalid_protocol encryption))
    × ((encrypting.start (encrypting.init fresh_writer).0 (other_end mismatch_answer)).0
        ≡ err (invalid_protocol compression))
unfolding memory-IsLawful
mismatch_refused_example =
    mismatch_refused memory-IsLawful toy-IsCrypto 7 refl aes_key first_nonce 9 true test one test
      one any encryption compression tt tt encryption-ne-compression (carried mismatch_head)
      (carried mismatch_answer)
