-- ===== src/Encrypt/Messages.antt =====
-- `send` and `recv` of the encrypt protocol: a sealed message is sent as the raw protocol does.
use tcp_handler.Base.{
  ◌^◌, ◌≤◌, ◌<◌, ◌≡◌, ap, ◌∙◌, ◌++◌, some, Bool, length, ok, ◌>>=◌, ◌>>◌, on_left, on_left-bind,
  pure,
}
use tcp_handler.Config.{Config}
use tcp_handler.Transport.{Bytes, Transport, IsLawful}
use tcp_handler.Transport.Carries.{Carries, Carries-Reads}
use tcp_handler.Crypto.{Crypto, IsCrypto}
use tcp_handler.Common.Errors.{packet}
use tcp_handler.Common.Cipher.{Cipher}
use tcp_handler.Common.Channel.{holding}
use tcp_handler.Common.Packet.{write_packet}
use tcp_handler.Common.Last.{flush}
use tcp_handler.Raw
use tcp_handler.Raw.Messages.{Emits-send, Reads-recv}
use tcp_handler.Encrypt.{seal, unseal, send, recv}
use tcp_handler.Encrypt.Sealing.{seal-some, unseal-some}

module _ (t : Transport) {c : Crypto} (af : Bool) (config : Config) where
  pub send-sealed :
      (new_nonce m x : Bytes) (w : t.Writer) (k k' : Cipher c)
      → seal t c new_nonce m k ≡ (ok x, k')
      → send t c af config new_nonce m (w, k)
        ≡ ((Raw.send t af config x w).0, ((Raw.send t af config x w).1, k'))
  unfolding send Raw.send ◌>>=◌
  send-sealed new_nonce m x w k k' e = rw e (
      ap (λ g. g (w, k'))
        (ap (λ g. on_left (write_packet t config x) >> g)
            (on_left-bind (packet (flush t af)) (λ _. pure tt))
          ∙ on_left-bind (write_packet t config x) (λ _. packet (flush t af) >> pure tt)))

  pub recv-opened :
      (x m : Bytes) (r : t.Reader) (k k' : Cipher c)
      → (Raw.recv t config r).0 ≡ ok x
      → unseal t c x k ≡ (ok m, k')
      → recv t c config (r, k) ≡ (ok m, ((Raw.recv t config r).1, k'))
  unfolding recv Raw.recv ◌>>=◌
  recv-opened x m r k k' e u = rw (e, u)

module _ {t : Transport} (l : IsLawful t) {c : Crypto} (ic : IsCrypto c) (af : Bool)
    (config : Config) where
  -- Let both ends hold the same nonce, let the new nonce have 12 bytes, and let the message with it
  -- encrypt to a packet within the limit, a 64-bit number. Then a `send` to a healthy writer
  -- succeeds, and the `recv` of a reader that gets what was accepted meanwhile returns the message;
  -- and both ends hold the new nonce.
  pub recv-send_encrypted :
      (a : c.Aes) (nonce new_nonce m x : Bytes) {w : t.Writer} {r : t.Reader}
      → config.max_packet_size < 2 ^ 64
      → length new_nonce ≡ 12
      → c.encrypt_in_place a nonce (new_nonce ++ m) ≡ some x
      → length x ≤ config.max_packet_size
      → l.Healthy w
      → Carries l w (send t c af config new_nonce m (w, holding (a, nonce))).1.0 r
      → ((send t c af config new_nonce m (w, holding (a, nonce))).0 ≡ ok tt)
        × ((send t c af config new_nonce m (w, holding (a, nonce))).1.1 ≡ holding (a, new_nonce))
        × ((recv t c config (r, holding (a, nonce))).0 ≡ ok m)
        × ((recv t c config (r, holding (a, nonce))).1.1 ≡ holding (a, new_nonce))
  recv-send_encrypted a nonce new_nonce m x {w} {r} valid len e fits h d =
      let s = send-sealed t af config new_nonce m x w _ _ (seal-some t a nonce new_nonce m x e) in
      let em = Emits-send l af config valid x fits in
      let got = Carries-Reads l em h (rw s at d) (Reads-recv l af config valid x fits) in
      let o =
        recv-opened t af config x m r _ _ got
          (unseal-some t a nonce new_nonce m x len (ic.decrypt-encrypt a nonce _ x e)) in
      (ap (λ p. p.0) s ∙ em.returns w h, ap (λ p. p.1.1) s, ap (λ p. p.0) o, ap (λ p. p.1.1) o)
