-- ===== src/Tests/Panics.antt =====
-- Ends whose cipher is lost or whose mutex is poisoned.
use tcp_handler.Base.{◌≡◌, refl, List, [], ◌∷◌, ◌++◌, ok, panic, false, true, ◌>>=◌, bytes_eq}
use tcp_handler.Transport.Memory.{memory, read}
use tcp_handler.Crypto.{Deflate}
use tcp_handler.Common.Errors.{aes}
use tcp_handler.Common.Cipher.{fmt, text_locked, get, guarded}
use tcp_handler.Common.Channel.{holding, lost, ruined}
use tcp_handler.Common.Channel.Dead.{Call, send_call, recv_call, AllFail}
use tcp_handler.Common.Packet.{read_packet, check_bytes_len}
use tcp_handler.Raw
use tcp_handler.Encrypt
use tcp_handler.Encrypt.Broken.{broken_for_good}
use tcp_handler.CompressEncrypt
use tcp_handler.CompressEncrypt.Broken.{broken_for_good_compressed, panic_poisons}
use tcp_handler.Tests.Setup.{
  toy, toy_deflate, small, hello, aes_key, first_nonce, second_nonce, fresh_writer,
}

-- The calls after the failure.
abbrev later : List Call
later = recv_call ∷ send_call second_nonce hello ∷ recv_call ∷ []

broken_for_good_example :
    let left =
      (Encrypt.recv memory toy small (1 ∷ 0 ∷ 5 ∷ hello, holding (aes_key, first_nonce))).1 in
    (left.1 ≡ lost)
    × AllFail
        (Encrypt.send memory toy true small)
        (Encrypt.recv memory toy small)
        later
        (record { reader = left.0; writer = fresh_writer; cipher = left.1 })
unfolding Raw.recv bytes_eq read_packet ◌>>=◌ read check_bytes_len Encrypt.recv Encrypt.unseal get
    guarded
broken_for_good_example =
    broken_for_good memory {c = toy} true small (1 ∷ 0 ∷ 5 ∷ hello) fresh_writer aes_key first_nonce
      (0 ∷ []) aes later refl refl

broken_for_good_compressed_example :
    let left =
      (CompressEncrypt.recv memory toy toy_deflate small
        (1 ∷ 0 ∷ 5 ∷ hello, holding (aes_key, first_nonce))).1 in
    (left.1 ≡ lost)
    × AllFail
        (CompressEncrypt.send memory toy toy_deflate true small)
        (CompressEncrypt.recv memory toy toy_deflate small)
        later
        (record { reader = left.0; writer = fresh_writer; cipher = left.1 })
unfolding Raw.recv bytes_eq read_packet ◌>>=◌ read check_bytes_len CompressEncrypt.recv
    CompressEncrypt.unseal get guarded
broken_for_good_compressed_example =
    broken_for_good_compressed memory {c = toy} toy_deflate true small (1 ∷ 0 ∷ 5 ∷ hello)
      fresh_writer aes_key first_nonce (0 ∷ []) aes later refl refl

abbrev panicking : Deflate
panicking = record { deflate = λ level m. ok m; inflate = λ x. panic }

panic_poisons_example :
    let done =
      CompressEncrypt.recv memory toy panicking small
        (13 ∷ 12 ∷ first_nonce ++ 5 ∷ hello, holding (aes_key, first_nonce)) in
    (done.0 ≡ panic)
    × (done.1.1 ≡ ruined)
    × (fmt false done.1.1 ≡ text_locked)
    × AllFail
        (CompressEncrypt.send memory toy panicking true small)
        (CompressEncrypt.recv memory toy panicking small)
        later
        (record { reader = done.1.0; writer = fresh_writer; cipher = done.1.1 })
unfolding Raw.recv bytes_eq read_packet ◌>>=◌ read check_bytes_len
panic_poisons_example =
    panic_poisons memory {c = toy} panicking true small (13 ∷ 12 ∷ first_nonce ++ 5 ∷ hello)
      fresh_writer aes_key first_nonce (12 ∷ first_nonce) [] later refl refl refl
