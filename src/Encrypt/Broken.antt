-- ===== src/Encrypt/Broken.antt =====
-- An end of the encrypt protocol whose cipher is lost or whose mutex is poisoned: no call helps it.
use tcp_handler.Base.{◌≡◌, refl, sym, ap, ◌∙◌, List, Bool, ok, err, inl, inr, Outcome-cases, ◌>>=◌}
use tcp_handler.Config.{Config}
use tcp_handler.Transport.{Bytes, Transport}
use tcp_handler.Crypto.{Crypto}
use tcp_handler.Common.Errors.{PacketError, broken}
use tcp_handler.Common.Cipher.{get}
use tcp_handler.Common.Channel.{holding, lost}
use tcp_handler.Common.Channel.Dead.{
  Call, Fails, with_error, with_panic, IsDead, AllFail, IsDead-AllFail,
}
use tcp_handler.Raw
use tcp_handler.Encrypt.{seal, unseal, send, recv}
use tcp_handler.Encrypt.Sealing.{failed_unseal}
use tcp_handler.Encrypt.Failures.{recv_unread, recv_read, recv_panic}

module _ (t : Transport) {c : Crypto} (af : Bool) (config : Config) where
  send-lost :
      (new_nonce m : Bytes) (w : t.Writer)
      → send t c af config new_nonce m (w, lost) ≡ (err broken, (w, lost))
  unfolding send seal get ◌>>=◌
  send-lost new_nonce m w = refl

  unseal-lost : (x : Bytes) → unseal t c x (lost {c = c}) ≡ (err broken, lost)
  unfolding unseal get ◌>>=◌
  unseal-lost x = refl

  recv-lost :
      (r : t.Reader) → Fails (recv t c config (r, lost)).0 lost (recv t c config (r, lost)).1.1
  recv-lost r = elim (Outcome-cases (Raw.recv t config r).0) [
    | inl (x, h) ↦ rw (recv_read t {c = c} af config r lost x h, unseal-lost x) (with_error refl)
    | inr (inl (e, h)) ↦ rw (recv_unread t {c = c} af config r lost e h) (with_error refl)
    | inr (inr h) ↦ rw (recv_panic t {c = c} af config r lost h) (with_panic refl)
  ]

  lost-IsDead : IsDead (send t c af config) (recv t c config) lost
  lost-IsDead = record {
    send_fails = λ new_nonce m w. rw (send-lost new_nonce m w) (with_error refl);
    recv_fails = recv-lost;
  }

  -- Let a `recv`, at an end that holds a nonce, read a packet and return an error, whatever it is.
  -- Then the cipher is lost, and after any calls of `send` and `recv` at that end, in any order and
  -- with any arguments, it still is: each of these calls fails, and none of them writes
  -- anything.
  pub broken_for_good :
      (r : t.Reader) (w : t.Writer) (a : c.Aes) (nonce x : Bytes) (e : PacketError)
      (calls : List Call)
      → (Raw.recv t config r).0 ≡ ok x
      → (recv t c config (r, holding (a, nonce))).0 ≡ err e
      → let left = (recv t c config (r, holding (a, nonce))).1 in
        (left.1 ≡ lost)
        × AllFail
            (send t c af config)
            (recv t c config)
            calls
            (record { reader = left.0; writer = w; cipher = left.1 })
  broken_for_good r w a nonce x e calls read failed =
      let o = recv_read t {c = c} af config r (holding (a, nonce)) x read in
      let is_lost =
        ap (λ p. p.1.1) o ∙ failed_unseal t a nonce x e (sym (ap (λ p. p.0) o) ∙ failed) in
      (is_lost, rw is_lost (IsDead-AllFail _ _ lost lost-IsDead calls _ w))
