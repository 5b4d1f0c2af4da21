-- ===== src/CompressEncrypt/Broken.antt =====
-- An end of the compress_encrypt protocol whose cipher is lost or whose mutex is poisoned: no call helps it.
use tcp_handler.Base.{
  ◌≡◌, refl, sym, ap, ◌∙◌, ◌++◌, some, List, Bool, false, ok, err, panic, inl, inr, Outcome-cases,
  ◌>>=◌,
}
use tcp_handler.Config.{Config, get_compression}
use tcp_handler.Transport.{Bytes, Transport}
use tcp_handler.Crypto.{Crypto, Deflate}
use tcp_handler.Common.Errors.{PacketError, broken}
use tcp_handler.Common.Cipher.{get, fmt, text_locked}
use tcp_handler.Common.Channel.{holding, lost, ruined}
use tcp_handler.Common.Channel.Dead.{
  Call, Fails, with_error, with_panic, IsDead, AllFail, IsDead-AllFail,
}
use tcp_handler.Raw
use tcp_handler.CompressEncrypt.{seal, unseal, send, recv}
use tcp_handler.CompressEncrypt.Sealing.{failed_unseal, unseal-panic}
use tcp_handler.CompressEncrypt.Failures.{recv_unread, recv_read, recv_panic}

fmt-ruined : (c : Crypto) → fmt false (ruined {c = c}) ≡ text_locked
unfolding fmt
fmt-ruined c = refl

module _ (t : Transport) {c : Crypto} (d : Deflate) (af : Bool) (config : Config) where
  send-lost :
      (new_nonce m : Bytes) (w : t.Writer)
      → Fails
          (send t c d af config new_nonce m (w, lost)).0
          (w, lost)
          (send t c d af config new_nonce m (w, lost)).1
  unfolding send seal get get_compression ◌>>=◌
  send-lost new_nonce m w = elim (Outcome-cases (d.deflate config.compression (new_nonce ++ m))) [
    | inl (x, h) ↦ rw h (with_error refl)
    | inr (inl (e, h)) ↦ rw h (with_error refl)
    | inr (inr h) ↦ rw h (with_panic refl)
  ]

  unseal-lost : (x : Bytes) → unseal t c d x (lost {c = c}) ≡ (err broken, lost)
  unfolding unseal get ◌>>=◌
  unseal-lost x = refl

  recv-lost :
      (r : t.Reader) → Fails (recv t c d config (r, lost)).0 lost (recv t c d config (r, lost)).1.1
  recv-lost r = elim (Outcome-cases (Raw.recv t config r).0) [
    | inl (x, h) ↦ rw (recv_read t {c = c} d af config r lost x h, unseal-lost x) (with_error refl)
    | inr (inl (e, h)) ↦ rw (recv_unread t {c = c} d af config r lost e h) (with_error refl)
    | inr (inr h) ↦ rw (recv_panic t {c = c} d af config r lost h) (with_panic refl)
  ]

  send-ruined :
      (new_nonce m : Bytes) (w : t.Writer)
      → Fails
          (send t c d af config new_nonce m (w, ruined)).0
          (w, ruined)
          (send t c d af config new_nonce m (w, ruined)).1
  unfolding send seal get get_compression ◌>>=◌
  send-ruined new_nonce m w = elim (Outcome-cases (d.deflate config.compression (new_nonce ++ m))) [
    | inl (x, h) ↦ rw h (with_panic refl)
    | inr (inl (e, h)) ↦ rw h (with_error refl)
    | inr (inr h) ↦ rw h (with_panic refl)
  ]

  unseal-ruined : (x : Bytes) → unseal t c d x (ruined {c = c}) ≡ (panic, ruined)
  unfolding unseal get ◌>>=◌
  unseal-ruined x = refl

  recv-ruined :
      (r : t.Reader)
      → Fails (recv t c d config (r, ruined)).0 ruined (recv t c d config (r, ruined)).1.1
  recv-ruined r = elim (Outcome-cases (Raw.recv t config r).0) [
    | inl (x, h) ↦
        rw (recv_read t {c = c} d af config r ruined x h, unseal-ruined x) (with_panic refl)
    | inr (inl (e, h)) ↦ rw (recv_unread t {c = c} d af config r ruined e h) (with_error refl)
    | inr (inr h) ↦ rw (recv_panic t {c = c} d af config r ruined h) (with_panic refl)
  ]

  lost-IsDead : IsDead (send t c d af config) (recv t c d config) lost
  lost-IsDead = record { send_fails = send-lost; recv_fails = recv-lost }

  ruined-IsDead : IsDead (send t c d af config) (recv t c d config) ruined
  ruined-IsDead = record { send_fails = send-ruined; recv_fails = recv-ruined }

  -- Let a `recv`, at an end that holds a nonce, read a packet and return an error, whatever it is.
  -- Then the cipher is lost, and after any calls of `send` and `recv` at that end, in any order and
  -- with any arguments, it still is: each of these calls fails, and none of them writes
  -- anything.
  pub broken_for_good_compressed :
      (r : t.Reader) (w : t.Writer) (a : c.Aes) (nonce x : Bytes) (e : PacketError)
      (calls : List Call)
      → (Raw.recv t config r).0 ≡ ok x
      → (recv t c d config (r, holding (a, nonce))).0 ≡ err e
      → let left = (recv t c d config (r, holding (a, nonce))).1 in
        (left.1 ≡ lost)
        × AllFail
            (send t c d af config)
            (recv t c d config)
            calls
            (record { reader = left.0; writer = w; cipher = left.1 })
  broken_for_good_compressed r w a nonce x e calls read failed =
      let o = recv_read t {c = c} d af config r (holding (a, nonce)) x read in
      let is_lost =
        ap (λ p. p.1.1) o ∙ failed_unseal t d a nonce x e (sym (ap (λ p. p.0) o) ∙ failed) in
      (is_lost, rw is_lost (IsDead-AllFail _ _ lost lost-IsDead calls _ w))

  recv_panics :
      (r : t.Reader) (a : c.Aes) (nonce x plain : Bytes)
      → (Raw.recv t config r).0 ≡ ok x
      → c.decrypt_in_place a nonce x ≡ some plain
      → d.inflate plain ≡ panic
      → recv t c d config (r, holding (a, nonce)) ≡ (panic, ((Raw.recv t config r).1, ruined))
  recv_panics r a nonce x plain read h i = rw (
    recv_read t {c = c} d af config r (holding (a, nonce)) x read,
    unseal-panic t {c = c} d a nonce x plain h i,
  )

  -- Let a `recv`, at an end that holds a nonce, read a packet that decrypts, and let its inflating
  -- panic. Then `recv` panics and the mutex is poisoned: `Debug` shows the cipher as locked though
  -- no thread holds the lock; and of any later calls of `send` and `recv` at that end, in any
  -- order and with any arguments, each fails, none of them writes anything, and the mutex stays
  -- poisoned.
  pub panic_poisons :
      (r : t.Reader) (w : t.Writer) (a : c.Aes) (nonce x plain : Bytes) (calls : List Call)
      → (Raw.recv t config r).0 ≡ ok x
      → c.decrypt_in_place a nonce x ≡ some plain
      → d.inflate plain ≡ panic
      → let left = (recv t c d config (r, holding (a, nonce))).1 in
        ((recv t c d config (r, holding (a, nonce))).0 ≡ panic)
        × (left.1 ≡ ruined)
        × (fmt false left.1 ≡ text_locked)
        × AllFail
            (send t c d af config)
            (recv t c d config)
            calls
            (record { reader = left.0; writer = w; cipher = left.1 })
  panic_poisons r w a nonce x plain calls read h i =
      let o = recv_panics r a nonce x plain read h i in
      let is_ruined = ap (λ p. p.1.1) o in
      (
        ap (λ p. p.0) o,
        is_ruined,
        rw is_ruined (fmt-ruined c),
        rw is_ruined (IsDead-AllFail _ _ ruined ruined-IsDead calls _ w),
      )
