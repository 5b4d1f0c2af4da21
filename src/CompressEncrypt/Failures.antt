-- ===== src/CompressEncrypt/Failures.antt =====
-- What errors leave behind in the compress_encrypt protocol.
use tcp_handler.Base.{
  ℕ, ◌^◌, ◌≤◌, ◌<◌, ◌≡◌, ◌≢◌, sym, ap, ◌∙◌, none, Bool, length, ok, err, ◌>>=◌, panic, ◌⊎◌, inl,
  inr, Outcome-cases, refl,
}
use tcp_handler.Config.{Config}
use tcp_handler.Transport.{Bytes, Transport, IsLawful}
use tcp_handler.Transport.Carries.{Carries, Carries-Reads}
use tcp_handler.Crypto.{Crypto, IsAuthentic, Deflate}
use tcp_handler.Common.Errors.{PacketError, aes, too_large}
use tcp_handler.Common.Cipher.{Cipher, get, guarded}
use tcp_handler.Common.Channel.{holding, lost}
use tcp_handler.Raw
use tcp_handler.Raw.Messages.{Emits-send, Reads-recv, send_too_large}
use tcp_handler.CompressEncrypt.{seal, unseal, send, recv}
use tcp_handler.CompressEncrypt.Sealing.{
  Sealed, seal-Sealed, seal-ok, unseal-none, failed_unseal, panic-ne-err,
}
use tcp_handler.CompressEncrypt.Messages.{send-sealed}

module _ (t : Transport) {c : Crypto} (d : Deflate) (af : Bool) (config : Config) where
  pub recv_unread :
      (r : t.Reader) (k : Cipher c) (e : PacketError)
      → (Raw.recv t config r).0 ≡ err e
      → recv t c d config (r, k) ≡ (err e, ((Raw.recv t config r).1, k))
  unfolding recv Raw.recv ◌>>=◌
  recv_unread r k e h = rw h

  pub recv_read :
      (r : t.Reader) (k : Cipher c) (x : Bytes)
      → (Raw.recv t config r).0 ≡ ok x
      → recv t c d config (r, k)
        ≡ ((unseal t c d x k).0, ((Raw.recv t config r).1, (unseal t c d x k).1))
  unfolding recv Raw.recv ◌>>=◌
  recv_read r k x h = rw h refl

  pub recv_panic :
      (r : t.Reader) (k : Cipher c)
      → (Raw.recv t config r).0 ≡ panic
      → recv t c d config (r, k) ≡ (panic, ((Raw.recv t config r).1, k))
  unfolding recv Raw.recv ◌>>=◌
  recv_panic r k h = rw h

  -- Let a `recv` fail, at an end that holds a nonce. Then either it read no packet, failed with the
  -- error of that, and the end still holds the same nonce; or the cipher is lost.
  pub failed_recv_compressed :
      (r : t.Reader) (a : c.Aes) (nonce : Bytes) (e : PacketError)
      → (recv t c d config (r, holding (a, nonce))).0 ≡ err e
      → (((Raw.recv t config r).0 ≡ err e)
          × ((recv t c d config (r, holding (a, nonce))).1.1 ≡ holding (a, nonce)))
        ⊎ ((recv t c d config (r, holding (a, nonce))).1.1 ≡ lost)
  failed_recv_compressed r a nonce e h = elim (Outcome-cases (Raw.recv t config r).0) [
    | inl (x, read) ↦
        let o = recv_read r (holding (a, nonce)) x read in
        inr (ap (λ p. p.1.1) o ∙ failed_unseal t d a nonce x e (sym (ap (λ p. p.0) o) ∙ h))
    | inr (inl (e', unread)) ↦
        let o = recv_unread r (holding (a, nonce)) e' unread in
        inl (unread ∙ sym (ap (λ p. p.0) o) ∙ h, ap (λ p. p.1.1) o)
    | inr (inr panics) ↦
        absurd (panic-ne-err (ap (λ p. p.0) (sym (recv_panic r (holding (a, nonce)) panics)) ∙ h))
  ]

  recv_undecrypted :
      (r : t.Reader) (a : c.Aes) (nonce x : Bytes)
      → (Raw.recv t config r).0 ≡ ok x
      → c.decrypt_in_place a nonce x ≡ none
      → recv t c d config (r, holding (a, nonce)) ≡ (err aes, ((Raw.recv t config r).1, lost))
  unfolding recv unseal get guarded Raw.recv ◌>>=◌
  recv_undecrypted r a nonce x h e = rw (h, e)

  -- Let the message be deflated and encrypted to a packet above the limit. Then `send` fails with
  -- `PacketError::TooLarge` and leaves the writer as it is, but its cipher holds the new nonce.
  pub send_refused_compressed :
      (a : c.Aes) (nonce new_nonce m x : Bytes) (w : t.Writer)
      → Sealed c d config.compression a nonce new_nonce m x
      → config.max_packet_size < length x
      → send t c d af config new_nonce m (w, holding (a, nonce))
        ≡ (err (too_large (length x) config.max_packet_size), (w, holding (a, new_nonce)))
  send_refused_compressed a nonce new_nonce m x w e h =
      send-sealed t d af config new_nonce m x w _ _
        (seal-Sealed t d config.compression a nonce new_nonce m x e)
      ∙ rw (send_too_large t af config x w h)

module _ {t : Transport} (l : IsLawful t) {c : Crypto} (au : IsAuthentic c) (d : Deflate)
    (af : Bool) (config : Config) (valid : config.max_packet_size < 2 ^ 64) (a : c.Aes)
    (nonce : Bytes) where
  -- Let both ends hold the same nonce, and let one `send` be refused because the sealed message is
  -- above the limit. Let the next message keep to it, and be sent to a healthy writer whose bytes
  -- the peer gets. Then, by the authenticity of the cipher and since the first call changed the
  -- nonce, the peer's `recv` fails with `PacketError::Aes` and loses its cipher.
  pub refused_send_breaks_peer_compressed :
      (n₁ n₂ m₁ m₂ x₁ x₂ : Bytes) {w : t.Writer} {r : t.Reader}
      → nonce ≢ n₁
      → Sealed c d config.compression a nonce n₁ m₁ x₁
      → config.max_packet_size < length x₁
      → Sealed c d config.compression a n₁ n₂ m₂ x₂
      → length x₂ ≤ config.max_packet_size
      → l.Healthy w
      → Carries l w
          (send t c d af config n₂ m₂ (send t c d af config n₁ m₁ (w, holding (a, nonce))).1).1.0
          r
      → ((recv t c d config (r, holding (a, nonce))).0 ≡ err aes)
        × ((recv t c d config (r, holding (a, nonce))).1.1 ≡ lost)
  refused_send_breaks_peer_compressed n₁ n₂ m₁ m₂ x₁ x₂ {w} {r} ne e₁ big e₂ fits h carried =
      let s₁ = send_refused_compressed t {c = c} d af config a nonce n₁ m₁ x₁ w e₁ big in
      let s₂ =
        send-sealed t {c = c} d af config n₂ m₂ x₂ w _ _
          (seal-Sealed t d config.compression a n₁ n₂ m₂ x₂ e₂) in
      let em = Emits-send l af config valid x₂ fits in
      let got =
        Carries-Reads l em h (rw (s₁, s₂) at carried) (Reads-recv l af config valid x₂ fits) in
      let o =
        recv_undecrypted t {c = c} d af config r a nonce x₂ got
          (au.decrypt_other a n₁ nonce e₂.plain x₂ e₂.encrypted (λ q. ne (sym q))) in
      (ap (λ p. p.0) o, ap (λ p. p.1.1) o)

  -- Let both ends hold the same nonce, and let each seal a message, with another nonce, before it
  -- opens the other's. Then, by the authenticity of the cipher, neither can open the packet that it
  -- gets: both fail with `PacketError::Aes` and lose their ciphers.
  pub crossing_breaks_both_compressed :
      (level : ℕ) (n₁ n₂ m₁ m₂ x₁ x₂ : Bytes) (k₁ k₂ : Cipher c)
      → nonce ≢ n₁
      → nonce ≢ n₂
      → seal t c d level n₁ m₁ (holding (a, nonce)) ≡ (ok x₁, k₁)
      → seal t c d level n₂ m₂ (holding (a, nonce)) ≡ (ok x₂, k₂)
      → (unseal t c d x₂ k₁ ≡ (err aes, lost)) × (unseal t c d x₁ k₂ ≡ (err aes, lost))
  crossing_breaks_both_compressed level n₁ n₂ m₁ m₂ x₁ x₂ k₁ k₂ ne₁ ne₂ e₁ e₂ =
      let (sealed₁, kept₁) = seal-ok t d level a nonce n₁ m₁ x₁ k₁ e₁ in
      let (sealed₂, kept₂) = seal-ok t d level a nonce n₂ m₂ x₂ k₂ e₂ in
      (
        rw kept₁ (
            unseal-none t d a n₁ x₂
              (au.decrypt_other a nonce n₁ sealed₂.plain x₂ sealed₂.encrypted ne₁)),
        rw kept₂ (
            unseal-none t d a n₂ x₁
              (au.decrypt_other a nonce n₂ sealed₁.plain x₁ sealed₁.encrypted ne₂)),
      )
