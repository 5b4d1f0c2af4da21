-- ===== src/Common/Keys.antt =====
-- `generate_rsa_private` and `compose_rsa_public`.
use tcp_handler.Base.{Outcome, ok, map_err, and_then}
use tcp_handler.Transport.{Bytes}
use tcp_handler.Crypto.{Crypto}
use tcp_handler.Common.Errors.{StarterError, rsa}

module _ (c : Crypto) where
  open c use {Seed, PrivateKey, PublicKey, n, e, to_bytes_le, from_bytes_le}

  unfoldable pub generate_rsa_private : Seed → Outcome StarterError (PrivateKey × Bytes × Bytes)
  generate_rsa_private seed =
      and_then (map_err rsa (c.new_private seed 2048))
        (λ key. ok (key, to_bytes_le (n key), to_bytes_le (e key)))

  unfoldable pub compose_rsa_public : Bytes → Bytes → Outcome StarterError PublicKey
  compose_rsa_public n_bytes e_bytes =
      map_err rsa (c.new_public (from_bytes_le n_bytes) (from_bytes_le e_bytes))
