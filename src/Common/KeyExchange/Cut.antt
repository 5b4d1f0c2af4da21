-- ===== src/Common/KeyExchange/Cut.antt =====
-- A handshake of the encrypting protocols whose bytes do not arrive whole.
use tcp_handler.Base.{◌≡◌, Bool, true, length, ok}
use tcp_handler.Transport.{Bytes, Str, fixed, u8_vec, unexpected_eof, Transport, IsLawful}
use tcp_handler.Transport.Starves.{Starves, Starves-bind, Starves-step, Starves-end, Starves-read}
use tcp_handler.Crypto.{Crypto, IsCrypto}
use tcp_handler.Common.Variant.{ProtocolVariant}
use tcp_handler.Common.Errors.{StarterError}
use tcp_handler.Common.Decision.{Decision}
use tcp_handler.Common.Head.Accepted.{Reads-read_head, Starves-read_head}
use tcp_handler.Common.Last.Wire.{Reads-read_last}
use tcp_handler.Common.Last.Cut.{Starves-read_last}
use tcp_handler.Common.KeyExchange.{server_init, client_start}
use tcp_handler.Common.KeyExchange.Opening.{opening_bytes}
use tcp_handler.Common.KeyExchange.Answer.{closing_bytes}

module _ {t : Transport} (l : IsLawful t) {c : Crypto} (ic : IsCrypto c) (p : ProtocolVariant)
    {seed : c.Seed} (k : c.PrivateKey) (generated : c.new_private seed 2048 ≡ ok k) where
  pub Starves-server_init :
      (i v : Str) (accepts : Str → Bool)
      → accepts v ≡ true
      → Starves l
          (opening_bytes l ic p generated i v)
          (StarterError.io unexpected_eof)
          (server_init t c p i accepts)
  Starves-server_init i v accepts ac =
      Starves-bind l _ _ (Reads-read_head l p i v accepts ac) (Starves-read_head l p i v accepts ac)
        (Starves-step l u8_vec (c.to_bytes_le (c.n k)) _ _ tt
          (Starves-end l _ _ (Starves-read l _ u8_vec (c.to_bytes_le (c.e k)) tt)))

  module _ (aes_key nonce : Bytes) {seed' : c.Seed} {x : Bytes}
      (encrypted : c.rsa_encrypt (ic.public k) seed' aes_key ≡ ok x) (key_len : length aes_key ≡ 32)
      (nonce_len : length nonce ≡ 12) where
    pub Starves-client_start :
        (j w : Str) (d : Decision Str)
        → Starves l
            (closing_bytes l ic p k aes_key nonce encrypted key_len nonce_len j w d)
            (StarterError.io unexpected_eof)
            (client_start t c p (ok k))
    Starves-client_start j w (Decision.accepted v) =
        Starves-bind l _ _ (Reads-read_last l p j w k (Decision.accepted v))
          (Starves-read_last l p j w k (Decision.accepted v))
          (Starves-step l u8_vec x _ _ tt
            (Starves-end l _ _ (Starves-read l _ (fixed 12) nonce nonce_len)))
    Starves-client_start j w (Decision.protocol q) =
        Starves-end l _ _ (Starves-read_last l {A = Str} p j w k (Decision.protocol q))
    Starves-client_start j w (Decision.identifier s) =
        Starves-end l _ _ (Starves-read_last l {A = Str} p j w k (Decision.identifier s))
    Starves-client_start j w (Decision.version s) =
        Starves-end l _ _ (Starves-read_last l {A = Str} p j w k (Decision.version s))
