-- ===== src/Tests/Conversations.antt =====
-- Conversations: a message from one end to the other.
use tcp_handler.Base.{refl, [], ◌∷◌, ◌++◌, ok, ◌>>=◌, bytes_eq}
use tcp_handler.Transport.{Bytes}
use tcp_handler.Transport.Memory.{memory}
use tcp_handler.Common.Cipher.{get, guarded, reset, read_nonce}
use tcp_handler.Common.Channel.{holding, Side, Reach, start, at_me, at_peer, sends, receives}
use tcp_handler.Common.Channel.Reached.{InOrder}
use tcp_handler.Common.Channel.Drained.{Drains}
use tcp_handler.Common.Channel.Fifo.{unused, IsFifo}
use tcp_handler.Encrypt
use tcp_handler.Encrypt.Conversation.{encrypt-InOrder, encrypt-Drains, encrypt-IsFifo}
use tcp_handler.CompressEncrypt
use tcp_handler.CompressEncrypt.Conversation.{
  compress_encrypt-InOrder, compress_encrypt-Drains, compress_encrypt-IsFifo,
}
use tcp_handler.Tests.Setup.{
  toy, toy-IsCrypto, toy-IsDeflate, hello, aes_key, first_nonce, second_nonce,
}

abbrev initial : Side toy
initial = record { cipher = holding (aes_key, first_nonce); inbox = []; sent = []; got = [] }

abbrev sender : Side toy
sender = record {
  cipher = holding (aes_key, second_nonce);
  inbox = [];
  sent = hello ∷ [];
  got = [];
}

abbrev waiting : Bytes → Side toy
waiting x = record { cipher = holding (aes_key, first_nonce); inbox = x ∷ []; sent = []; got = [] }

abbrev receiver : Side toy
receiver = record {
  cipher = holding (aes_key, second_nonce);
  inbox = [];
  sent = [];
  got = hello ∷ [];
}

abbrev encrypt_packet : Bytes
encrypt_packet = 12 ∷ first_nonce ++ second_nonce ++ hello

encrypt_sent :
    Reach
      (Encrypt.Sealing.sealer memory toy-IsCrypto)
      initial
      initial
      (waiting encrypt_packet)
      sender
unfolding Encrypt.Sealing.sealer Encrypt.seal get guarded reset ◌>>=◌
encrypt_sent = at_peer start (
    sends second_nonce hello encrypt_packet (holding (aes_key, second_nonce)) refl refl refl refl
      refl)

encrypt_received :
    Reach (Encrypt.Sealing.sealer memory toy-IsCrypto) initial initial receiver sender
unfolding Encrypt.Sealing.sealer Encrypt.unseal get guarded reset read_nonce bytes_eq ◌>>=◌
encrypt_received =
    at_me encrypt_sent
      (receives encrypt_packet [] (ok hello) (holding (aes_key, second_nonce)) refl refl refl refl)

encrypt-InOrder_example :
    InOrder (Encrypt.Sealing.sealer memory toy-IsCrypto) receiver sender
    × InOrder (Encrypt.Sealing.sealer memory toy-IsCrypto) sender receiver
encrypt-InOrder_example =
    encrypt-InOrder memory toy-IsCrypto (aes_key, first_nonce) encrypt_received

encrypt-Drains_example :
    Drains
      (Encrypt.Sealing.sealer memory toy-IsCrypto)
      initial
      initial
      (waiting encrypt_packet)
      sender
encrypt-Drains_example = encrypt-Drains memory toy-IsCrypto (aes_key, first_nonce) encrypt_sent

encrypt-IsFifo_example :
    IsFifo
      (Encrypt.Sealing.sealer memory toy-IsCrypto)
      unused
      unused
      (waiting encrypt_packet)
      sender
encrypt-IsFifo_example = encrypt-IsFifo memory toy-IsCrypto (aes_key, first_nonce) encrypt_sent

abbrev compress_encrypt_packet : Bytes
compress_encrypt_packet = 12 ∷ first_nonce ++ 6 ∷ second_nonce ++ hello

compress_encrypt_sent :
    Reach
      (CompressEncrypt.Sealing.sealer memory toy-IsCrypto toy-IsDeflate 6)
      initial
      initial
      (waiting compress_encrypt_packet)
      sender
unfolding CompressEncrypt.Sealing.sealer CompressEncrypt.seal get guarded reset ◌>>=◌
compress_encrypt_sent = at_peer start (
    sends second_nonce hello compress_encrypt_packet (holding (aes_key, second_nonce)) refl refl
      refl refl refl)

compress_encrypt_received :
    Reach
      (CompressEncrypt.Sealing.sealer memory toy-IsCrypto toy-IsDeflate 6)
      initial
      initial
      receiver
      sender
unfolding CompressEncrypt.Sealing.sealer CompressEncrypt.unseal get guarded reset read_nonce
    bytes_eq ◌>>=◌
compress_encrypt_received = at_me compress_encrypt_sent (
    receives compress_encrypt_packet [] (ok hello) (holding (aes_key, second_nonce)) refl refl refl
      refl)

compress_encrypt-InOrder_example :
    InOrder (CompressEncrypt.Sealing.sealer memory toy-IsCrypto toy-IsDeflate 6) receiver sender
    × InOrder (CompressEncrypt.Sealing.sealer memory toy-IsCrypto toy-IsDeflate 6) sender receiver
compress_encrypt-InOrder_example =
    compress_encrypt-InOrder memory toy-IsCrypto toy-IsDeflate 6 (aes_key, first_nonce)
      compress_encrypt_received

compress_encrypt-Drains_example :
    Drains
      (CompressEncrypt.Sealing.sealer memory toy-IsCrypto toy-IsDeflate 6)
      initial
      initial
      (waiting compress_encrypt_packet)
      sender
compress_encrypt-Drains_example =
    compress_encrypt-Drains memory toy-IsCrypto toy-IsDeflate 6 (aes_key, first_nonce)
      compress_encrypt_sent

compress_encrypt-IsFifo_example :
    IsFifo
      (CompressEncrypt.Sealing.sealer memory toy-IsCrypto toy-IsDeflate 6)
      unused
      unused
      (waiting compress_encrypt_packet)
      sender
compress_encrypt-IsFifo_example =
    compress_encrypt-IsFifo memory toy-IsCrypto toy-IsDeflate 6 (aes_key, first_nonce)
      compress_encrypt_sent
