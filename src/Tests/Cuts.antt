-- ===== src/Tests/Cuts.antt =====
-- Handshakes that are cut.
use tcp_handler.Base.{◌≡◌, refl, [], ◌∷◌, ◌++◌, ok, err}
use tcp_handler.Transport.{Bytes, unexpected_eof}
use tcp_handler.Transport.Memory.{memory}
use tcp_handler.Transport.Memory.Proofs.{memory-IsLawful}
use tcp_handler.Common.Variant.{to_bools}
use tcp_handler.Common.Errors.{StarterError}
use tcp_handler.Common.Decision.{accepted}
use tcp_handler.Encrypt
use tcp_handler.Encrypt.Cut.{encrypt_handshake_cut}
use tcp_handler.Tests.Setup.{toy, toy-IsCrypto, test, one, any, aes_key, first_nonce}

-- The keys are cut, and the nonce is missing.
abbrev encrypt_cut : Bytes
encrypt_cut = 208 ∷ 8 ∷ 166 ∷ 104 ∷ 0 ∷ 1 ∷ 2 ∷ 4 ∷ test ++ 1 ∷ 49 ∷ 1 ∷ []

encrypt_handshake_cut_example :
    ((Encrypt.server_init memory toy test any encrypt_cut).0 ≡ err (StarterError.io unexpected_eof))
    × ((Encrypt.client_start memory toy (ok 7) (3 ∷ 33 ∷ 7 ∷ aes_key)).0
        ≡ err (StarterError.io unexpected_eof))
unfolding memory-IsLawful to_bools toy-IsCrypto
encrypt_handshake_cut_example =
    encrypt_handshake_cut memory-IsLawful toy-IsCrypto 7 refl aes_key first_nonce {seed' = 9} refl
      refl refl test one test one any (accepted one) encrypt_cut (7 ∷ 1 ∷ 3 ∷ [])
      (3 ∷ 33 ∷ 7 ∷ aes_key) first_nonce _ _ refl refl (λ e. cc) refl refl (λ e. cc) refl
