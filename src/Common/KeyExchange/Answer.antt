-- ===== src/Common/KeyExchange/Answer.antt =====
-- The server's answer and session key, and what the client makes of them.
use tcp_handler.Base.{ℕ, ◌≡◌, ◌++◌, Bool, length, ok}
use tcp_handler.Transport.{Bytes, Str, fixed, u8_vec, Transport, IsLawful}
use tcp_handler.Transport.Emits.{
  Emits, Emits-bind, Emits-bind_err, Emits-step, Emits-write, Emits-lift,
}
use tcp_handler.Transport.Reads.{
  Reads, Reads-bind, Reads-bind_err, Reads-step, Reads-end, Reads-read, Reads-lift, Reads-pure,
}
use tcp_handler.Crypto.{Crypto, IsCrypto}
use tcp_handler.Common.Variant.{ProtocolVariant}
use tcp_handler.Common.Errors.{StarterError}
use tcp_handler.Common.Cipher.{Cipher, new}
use tcp_handler.Common.Channel.{holding}
use tcp_handler.Common.Decision.{Decision, server_view, client_view}
use tcp_handler.Common.Head.{magic_version}
use tcp_handler.Common.Last.Wire.{answer_bytes, Emits-write_last, Reads-read_last}
use tcp_handler.Common.Exchange.{Emits-then_flush}
use tcp_handler.Common.KeyExchange.Opening.{init_result}
use tcp_handler.Common.KeyExchange.{client_start, server_start}

-- What both sides hold after the handshake.
abbrev pub session : (c : Crypto) → Bytes → Bytes → Cipher c
session c aes_key nonce = holding (c.aes_new aes_key, nonce)

-- What `server_start` returns for a version.
abbrev pub start_result : {S : Type 0} → S → Str → S × ℕ × Str
start_result s v = (s, magic_version, v)

module _ {t : Transport} (l : IsLawful t) {c : Crypto} (ic : IsCrypto c) (p : ProtocolVariant)
    (k : c.PrivateKey) (aes_key nonce : Bytes) {seed : c.Seed} {x : Bytes}
    (encrypted : c.rsa_encrypt (ic.public k) seed aes_key ≡ ok x) (key_len : length aes_key ≡ 32)
    (nonce_len : length nonce ≡ 12) where
  open l use {encode}

  abbrev pub key_bytes : Bytes
  key_bytes = encode u8_vec x ++ encode (fixed 12) nonce

  abbrev pub closing_bytes : Str → Str → Decision Str → Bytes
  closing_bytes j w (Decision.accepted v) = answer_bytes l p j w (Decision.accepted v) ++ key_bytes
  closing_bytes j w d = answer_bytes l p j w d

  pub Emits-server_start :
      (af : Bool) (j w : Str) (d : Decision Str)
      → Emits l
          (closing_bytes j w d)
          (server_view (start_result (session c aes_key nonce)) d)
          (server_start t c p af aes_key nonce seed j w (server_view (init_result (ic.public k)) d))
  unfolding new
  Emits-server_start af j w (Decision.accepted v) =
      Emits-bind l _ _ (Emits-write_last l p j w (init_result (ic.public k)) (Decision.accepted v))
        (rw encrypted (
          Emits-bind l _ _ (Emits-lift l (ok x)) (
            Emits-step l u8_vec x _ _ tt (
              Emits-then_flush l StarterError.io af _
                (λ _. start_result (session c aes_key nonce) v)
                (Emits-write l _ (fixed 12) nonce nonce_len)))))
  Emits-server_start af j w (Decision.protocol q) =
      Emits-bind_err l _ _
        (Emits-write_last l p j w (init_result (ic.public k)) (Decision.protocol q))
  Emits-server_start af j w (Decision.identifier s) =
      Emits-bind_err l _ _
        (Emits-write_last l p j w (init_result (ic.public k)) (Decision.identifier s))
  Emits-server_start af j w (Decision.version s) =
      Emits-bind_err l _ _
        (Emits-write_last l p j w (init_result (ic.public k)) (Decision.version s))

  pub Reads-client_start :
      (j w : Str) (d : Decision Str)
      → Reads l
          (closing_bytes j w d)
          (client_view p j w (session c aes_key nonce) d)
          (client_start t c p (ok k))
  unfolding new
  Reads-client_start j w (Decision.accepted v) =
      Reads-bind l _ _ (Reads-read_last l p j w k (Decision.accepted v)) (
        Reads-step l u8_vec x _ _ tt (
          Reads-end l _ _ (Reads-read l _ (fixed 12) nonce nonce_len) (
            rw
              (
                ic.rsa_decrypt-encrypt k seed aes_key x encrypted,
                ic.aes_new_from_slice-new aes_key key_len,
              )
              (Reads-bind l _ _ (Reads-lift l (ok (c.aes_new aes_key, nonce)))
                (Reads-pure l (session c aes_key nonce))))))
  Reads-client_start j w (Decision.protocol q) =
      Reads-bind_err l _ _ (Reads-read_last l {A = Str} p j w k (Decision.protocol q))
  Reads-client_start j w (Decision.identifier s) =
      Reads-bind_err l _ _ (Reads-read_last l {A = Str} p j w k (Decision.identifier s))
  Reads-client_start j w (Decision.version s) =
      Reads-bind_err l _ _ (Reads-read_last l {A = Str} p j w k (Decision.version s))
