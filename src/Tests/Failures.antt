-- ===== src/Tests/Failures.antt =====
-- Errors and lost ciphers.
use tcp_handler.Base.{◌≡◌, ◌≢◌, refl, true, [], ◌∷◌, ◌++◌, ok, err, panic, arith, ◌>>=◌}
use tcp_handler.Transport.Memory.{MemoryWriter, memory}
use tcp_handler.Transport.Memory.Proofs.{memory-IsLawful}
use tcp_handler.Common.Errors.{aes}
use tcp_handler.Common.Cipher.{reset, get, guarded}
use tcp_handler.Common.Channel.{holding, lost}
use tcp_handler.Encrypt
use tcp_handler.Encrypt.Keys.{client_start_panics}
use tcp_handler.Encrypt.Failures.{refused_send_breaks_peer, crossing_breaks_both}
use tcp_handler.CompressEncrypt
use tcp_handler.CompressEncrypt.Failures.{refused_send_breaks_peer_compressed}
use tcp_handler.Tests.Setup.{
  toy, toy-IsAuthentic, toy_deflate, fresh_writer, other_end, carried, small, hello, too_long, test,
  one, aes_key, first_nonce, second_nonce, third_nonce,
}

first-ne-second : first_nonce ≢ second_nonce
first-ne-second e = cc

first-ne-third : first_nonce ≢ third_nonce
first-ne-third e = cc

client_start_panics_example :
    (Encrypt.client_start memory toy (ok 7) (3 ∷ 2 ∷ 7 ∷ 5 ∷ first_nonce)).0 ≡ panic
unfolding memory-IsLawful
client_start_panics_example =
    client_start_panics memory-IsLawful {c = toy} 7 (5 ∷ []) (7 ∷ 5 ∷ []) first_nonce refl refl refl
      test one one _ [] refl

abbrev encrypt_after_refusal : MemoryWriter
encrypt_after_refusal =
    (Encrypt.send memory toy true small third_nonce hello
      (Encrypt.send memory toy true small second_nonce too_long
        (fresh_writer, holding (aes_key, first_nonce))).1).1.0

refused_send_breaks_peer_example :
    ((Encrypt.recv memory toy small
        (other_end encrypt_after_refusal, holding (aes_key, first_nonce))).0
      ≡ err aes)
    × ((Encrypt.recv memory toy small
          (other_end encrypt_after_refusal, holding (aes_key, first_nonce))).1.1
        ≡ lost)
unfolding memory-IsLawful
refused_send_breaks_peer_example =
    refused_send_breaks_peer memory-IsLawful toy-IsAuthentic true small (omega arith) aes_key
      first_nonce second_nonce third_nonce too_long hello
      (12 ∷ first_nonce ++ second_nonce ++ too_long) (12 ∷ second_nonce ++ third_nonce ++ hello)
      first-ne-second refl (omega arith) refl (omega arith) tt (carried encrypt_after_refusal)

crossing_breaks_both_example :
    (Encrypt.unseal memory toy
        (12 ∷ first_nonce ++ third_nonce ++ hello)
        (holding (aes_key, second_nonce))
      ≡ (err aes, lost))
    × (Encrypt.unseal memory toy
          (12 ∷ first_nonce ++ second_nonce ++ hello)
          (holding (aes_key, third_nonce))
        ≡ (err aes, lost))
unfolding Encrypt.seal ◌>>=◌ get guarded reset
crossing_breaks_both_example =
    crossing_breaks_both memory-IsLawful toy-IsAuthentic true small (omega arith) aes_key
      first_nonce second_nonce third_nonce hello hello (12 ∷ first_nonce ++ second_nonce ++ hello)
      (12 ∷ first_nonce ++ third_nonce ++ hello) (holding (aes_key, second_nonce))
      (holding (aes_key, third_nonce)) first-ne-second first-ne-third refl refl

abbrev compress_encrypt_after_refusal : MemoryWriter
compress_encrypt_after_refusal =
    (CompressEncrypt.send memory toy toy_deflate true small third_nonce hello
      (CompressEncrypt.send memory toy toy_deflate true small second_nonce too_long
        (fresh_writer, holding (aes_key, first_nonce))).1).1.0

refused_send_breaks_peer_compressed_example :
    ((CompressEncrypt.recv memory toy toy_deflate small
        (other_end compress_encrypt_after_refusal, holding (aes_key, first_nonce))).0
      ≡ err aes)
    × ((CompressEncrypt.recv memory toy toy_deflate small
          (other_end compress_encrypt_after_refusal, holding (aes_key, first_nonce))).1.1
        ≡ lost)
unfolding memory-IsLawful
refused_send_breaks_peer_compressed_example =
    refused_send_breaks_peer_compressed memory-IsLawful toy-IsAuthentic toy_deflate true small
      (omega arith) aes_key first_nonce second_nonce third_nonce too_long hello
      (12 ∷ first_nonce ++ 6 ∷ second_nonce ++ too_long)
      (12 ∷ second_nonce ++ 6 ∷ third_nonce ++ hello) first-ne-second
      (record { plain = 6 ∷ second_nonce ++ too_long; deflated = refl; encrypted = refl })
      (omega arith) (record { plain = 6 ∷ third_nonce ++ hello; deflated = refl; encrypted = refl })
      (omega arith) tt (carried compress_encrypt_after_refusal)
