-- ===== src/Encrypt/Keys.antt =====
-- The session key that the client of the encrypt protocol is given.
use tcp_handler.Base.{◌≡◌, refl, none, ◌++◌, length, ok, panic, ◌>>=◌}
use tcp_handler.Transport.{Bytes, Str, fixed, u8_vec, Transport, IsLawful}
use tcp_handler.Transport.Reads.{Reads, Reads-bind, Reads-step, Reads-end, Reads-read}
use tcp_handler.Crypto.{Crypto}
use tcp_handler.Common.Last.Wire.{answer_bytes, Reads-read_last}
use tcp_handler.Common.Decision.{accepted}
use tcp_handler.Common.Variant.{encryption}
use tcp_handler.Encrypt.{client_start, open_key}

module _ {t : Transport} (l : IsLawful t) {c : Crypto} (k : c.PrivateKey) (key x nonce : Bytes)
    (decrypted : c.rsa_decrypt k x ≡ ok key) (unfit : c.aes_new_from_slice key ≡ none)
    (nonce_len : length nonce ≡ 12) (j w v : Str) where
  Reads-client_start :
      Reads l
        (answer_bytes l encryption j w (accepted v)
          ++ (l.encode u8_vec x ++ l.encode (fixed 12) nonce))
        panic
        (client_start t c (ok k))
  unfolding client_start open_key ◌>>=◌
  Reads-client_start = Reads-bind l _ _ (Reads-read_last l encryption j w k (accepted v)) (
      Reads-step l u8_vec x _ _ tt (
        Reads-end l _ _ (Reads-read l _ (fixed 12) nonce nonce_len)
          (rw (decrypted, unfit) (record { returns = λ r rest h. refl; leaves = λ r rest h. h }))))

  -- Let the server accept the client, and let what the client is sent as a key decrypt to bytes that
  -- the AES library does not take as a key. Then `client_start` panics.
  pub client_start_panics :
      (r : t.Reader) (rest : Bytes)
      → l.pending r
        ≡ (answer_bytes l encryption j w (accepted v)
            ++ (l.encode u8_vec x ++ l.encode (fixed 12) nonce))
          ++ rest
      → (client_start t c (ok k) r).0 ≡ panic
  client_start_panics r rest h = Reads-client_start.returns r rest h
