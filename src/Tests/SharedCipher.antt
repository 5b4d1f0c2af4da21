-- ===== src/Tests/SharedCipher.antt =====
-- Two tasks at one end.
use tcp_handler.Base.{refl, [], ◌∷◌, ◌++◌, true, ok, ◌>>=◌, bytes_eq}
use tcp_handler.Config.{get_compression}
use tcp_handler.Transport.{Bytes}
use tcp_handler.Transport.Memory.{MemoryWriter, memory, read, write}
use tcp_handler.Common.Cipher.{Cipher, get, guarded, reset, read_nonce}
use tcp_handler.Common.Last.{flush}
use tcp_handler.Common.Packet.{read_packet, write_packet, check_bytes_len}
use tcp_handler.Common.Channel.{holding, lost}
use tcp_handler.Common.Tasks.{End, Parts}
use tcp_handler.Common.Tasks.Interleaved.{
  Runs, idle, locks_send, seals, writes, fetches, locks_recv, opens, no_send, no_recv,
}
use tcp_handler.Common.Tasks.Order.{with_mutex, IsSequential}
use tcp_handler.Common.Tasks.Register.{Register, ready, mutex}
use tcp_handler.Encrypt
use tcp_handler.Encrypt.Tasks.{encrypt_tasks}
use tcp_handler.CompressEncrypt
use tcp_handler.CompressEncrypt.Tasks.{compress_encrypt_tasks}
use tcp_handler.Tests.Setup.{
  toy, toy_deflate, fresh_writer, small, hello, aes_key, first_nonce, second_nonce, third_nonce,
}

abbrev encrypt_parts : Parts Bytes MemoryWriter toy
encrypt_parts = Encrypt.Tasks.parts memory toy true small

-- A reply waits that was sealed under the nonce that the end's own next message carries.
abbrev encrypt_before : End Bytes MemoryWriter Register
encrypt_before = record {
  reader = 30 ∷ 12 ∷ second_nonce ++ third_nonce ++ hello;
  writer = fresh_writer;
  cipher = ready first_nonce;
  sent = [];
  got = [];
}

abbrev encrypt_packet : Bytes
encrypt_packet = 12 ∷ first_nonce ++ second_nonce ++ hello

abbrev encrypt_reply : Bytes
encrypt_reply = 12 ∷ second_nonce ++ third_nonce ++ hello

abbrev encrypt_after : End Bytes MemoryWriter (Cipher toy)
encrypt_after = record {
  reader = [];
  writer = (encrypt_parts.put encrypt_packet fresh_writer).1;
  cipher = holding (aes_key, third_nonce);
  sent = record { new_nonce = second_nonce; message = hello; result = ok tt } ∷ [];
  got = ok hello ∷ [];
}

-- The reply is read while the lock is held, and opened before the message is written.
encrypt-Runs :
    Runs encrypt_parts (with_mutex (mutex aes_key) encrypt_before) encrypt_after no_send no_recv
unfolding Encrypt.seal Encrypt.unseal read_packet write_packet check_bytes_len read write flush get
    guarded reset read_nonce bytes_eq ◌>>=◌ tcp_handler.Transport.Memory.flush
encrypt-Runs = writes second_nonce hello encrypt_packet (
    opens encrypt_reply (aes_key, second_nonce)
      (locks_recv encrypt_reply (aes_key, second_nonce) lost
        (seals second_nonce hello (second_nonce ++ hello) encrypt_packet (aes_key, first_nonce)
          (holding (aes_key, second_nonce))
          (fetches encrypt_reply []
            (locks_send second_nonce hello (second_nonce ++ hello) (aes_key, first_nonce) lost idle
              refl refl refl)
            refl)
          refl)
        refl refl))

encrypt_tasks_example :
    IsSequential encrypt_parts
      (Encrypt.Tasks.without_mutex memory toy true small aes_key)
      (mutex aes_key)
      encrypt_before
      encrypt_after
encrypt_tasks_example = encrypt_tasks memory toy true small aes_key encrypt-Runs

abbrev compress_encrypt_parts : Parts Bytes MemoryWriter toy
compress_encrypt_parts = CompressEncrypt.Tasks.parts memory toy toy_deflate true small

-- A reply waits that was sealed under the nonce that the end's own next message carries.
abbrev compress_encrypt_before : End Bytes MemoryWriter Register
compress_encrypt_before = record {
  reader = 31 ∷ 12 ∷ second_nonce ++ 6 ∷ third_nonce ++ hello;
  writer = fresh_writer;
  cipher = ready first_nonce;
  sent = [];
  got = [];
}

abbrev compress_encrypt_packet : Bytes
compress_encrypt_packet = 12 ∷ first_nonce ++ 6 ∷ second_nonce ++ hello

abbrev compress_encrypt_reply : Bytes
compress_encrypt_reply = 12 ∷ second_nonce ++ 6 ∷ third_nonce ++ hello

abbrev compress_encrypt_after : End Bytes MemoryWriter (Cipher toy)
compress_encrypt_after = record {
  reader = [];
  writer = (compress_encrypt_parts.put compress_encrypt_packet fresh_writer).1;
  cipher = holding (aes_key, third_nonce);
  sent = record { new_nonce = second_nonce; message = hello; result = ok tt } ∷ [];
  got = ok hello ∷ [];
}

-- The reply is read while the lock is held, and opened before the message is written.
compress_encrypt-Runs :
    Runs compress_encrypt_parts
      (with_mutex (mutex aes_key) compress_encrypt_before)
      compress_encrypt_after
      no_send
      no_recv
unfolding CompressEncrypt.seal CompressEncrypt.unseal read_packet write_packet check_bytes_len read
    write flush get guarded reset read_nonce bytes_eq get_compression ◌>>=◌
    tcp_handler.Transport.Memory.flush
compress_encrypt-Runs = writes second_nonce hello compress_encrypt_packet (
    opens compress_encrypt_reply (aes_key, second_nonce)
      (locks_recv compress_encrypt_reply (aes_key, second_nonce) lost
        (seals second_nonce hello (6 ∷ second_nonce ++ hello) compress_encrypt_packet
          (aes_key, first_nonce) (holding (aes_key, second_nonce))
          (fetches compress_encrypt_reply []
            (locks_send second_nonce hello (6 ∷ second_nonce ++ hello) (aes_key, first_nonce) lost
              idle refl refl refl)
            refl)
          refl)
        refl refl))

compress_encrypt_tasks_example :
    IsSequential compress_encrypt_parts
      (CompressEncrypt.Tasks.without_mutex memory toy toy_deflate true small aes_key)
      (mutex aes_key)
      compress_encrypt_before
      compress_encrypt_after
compress_encrypt_tasks_example =
    compress_encrypt_tasks memory toy toy_deflate true small aes_key compress_encrypt-Runs
