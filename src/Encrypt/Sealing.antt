-- ===== src/Encrypt/Sealing.antt =====
-- The closures of `send` and `recv` in the encrypt protocol.
use tcp_handler.Base.{
  ◌≡◌, sym, ap, ◌∙◌, ◌++◌, none, some, inl, inr, length, Option-cases, Outcome, ok, err, ◌>>=◌,
  panic, ltb, Bool-cases, refl,
}
use tcp_handler.Transport.{Bytes, Transport}
use tcp_handler.Crypto.{Crypto, IsCrypto}
use tcp_handler.Common.Errors.{PacketError, aes}
use tcp_handler.Common.Cipher.{Cipher, get, guarded, reset, read_nonce-append, read_nonce}
use tcp_handler.Common.Channel.{holding, lost, Sealer}
use tcp_handler.Encrypt.{seal, unseal}

module _ (t : Transport) {c : Crypto} (a : c.Aes) (nonce new_nonce message x : Bytes) where
  pub seal-some :
      c.encrypt_in_place a nonce (new_nonce ++ message) ≡ some x
      → seal t c new_nonce message (holding (a, nonce)) ≡ (ok x, holding (a, new_nonce))
  unfolding seal get guarded reset ◌>>=◌
  seal-some e = rw e

  pub seal-none :
      c.encrypt_in_place a nonce (new_nonce ++ message) ≡ none
      → seal t c new_nonce message (holding (a, nonce)) ≡ (err aes, lost)
  unfolding seal get guarded ◌>>=◌
  seal-none e = rw e

  pub unseal-some :
      length new_nonce ≡ 12
      → c.decrypt_in_place a nonce x ≡ some (new_nonce ++ message)
      → unseal t c x (holding (a, nonce)) ≡ (ok message, holding (a, new_nonce))
  unfolding unseal get guarded reset ◌>>=◌
  unseal-some h e = rw (e, read_nonce-append new_nonce message h)

pub unseal-none :
    (t : Transport) {c : Crypto} (a : c.Aes) (nonce x : Bytes)
    → c.decrypt_in_place a nonce x ≡ none
    → unseal t c x (holding (a, nonce)) ≡ (err aes, lost)
unfolding unseal get guarded ◌>>=◌
unseal-none t a nonce x e = rw e

err-ne-ok : {e : PacketError} {z : Bytes} → ◌≡◌ {A = Outcome PacketError Bytes} (err e) (ok z) → ⊥
err-ne-ok h = cc

ok_injective : {y z : Bytes} → ◌≡◌ {A = Outcome PacketError Bytes} (ok y) (ok z) → y ≡ z
ok_injective h = cc

module _ (t : Transport) {c : Crypto} (a : c.Aes) (nonce new_nonce message x : Bytes)
    (k : Cipher c) where
  -- What a successful `seal` did.
  pub seal-ok :
      seal t c new_nonce message (holding (a, nonce)) ≡ (ok x, k)
      → (c.encrypt_in_place a nonce (new_nonce ++ message) ≡ some x) × (k ≡ holding (a, new_nonce))
  seal-ok e = elim (Option-cases (c.encrypt_in_place a nonce (new_nonce ++ message))) [
    | inl failed ↦
        absurd
          (err-ne-ok (ap (λ p. p.0) (sym (seal-none t a nonce new_nonce message x failed) ∙ e)))
    | inr (y, some_y) ↦
        let same = sym (seal-some t a nonce new_nonce message y some_y) ∙ e in
        (some_y ∙ ap some (ok_injective (ap (λ p. p.0) same)), sym (ap (λ p. p.1) same))
  ]

unfoldable pub sealer : (t : Transport) {c : Crypto} → IsCrypto c → Sealer c
sealer t {c} ic = record {
  seal = seal t c;
  unseal = unseal t c;
  unseal-seal = λ a nonce new_nonce message x k len e.
      let (encrypted, kept) = seal-ok t a nonce new_nonce message x k e in
      (
        kept,
        unseal-some t a nonce new_nonce message x len
            (ic.decrypt-encrypt a nonce (new_nonce ++ message) x encrypted),
      );
}

pub panic-ne-err : {e : PacketError} → ◌≡◌ {A = Outcome PacketError Bytes} panic (err e) → ⊥
panic-ne-err h = cc

ok-ne-err : {e : PacketError} {z : Bytes} → ◌≡◌ {A = Outcome PacketError Bytes} (ok z) (err e) → ⊥
ok-ne-err h = cc

-- An error of `unseal` leaves nothing in the mutex.
module _ (t : Transport) {c : Crypto} (a : c.Aes) (nonce x : Bytes) where
  decrypted :
      (plain : Bytes) (e : PacketError)
      → c.decrypt_in_place a nonce x ≡ some plain
      → (unseal t c x (holding (a, nonce))).0 ≡ err e
      → (unseal t c x (holding (a, nonce))).1 ≡ lost
  unfolding unseal get guarded reset read_nonce ◌>>=◌
  decrypted plain e h f = elim (Bool-cases (ltb (length plain) 12)) [
    | inl short ↦ rw (h, short) refl
    | inr long ↦ absurd (ok-ne-err (rw (h, long) at f))
  ]

  pub failed_unseal :
      (e : PacketError)
      → (unseal t c x (holding (a, nonce))).0 ≡ err e
      → (unseal t c x (holding (a, nonce))).1 ≡ lost
  failed_unseal e f = elim (Option-cases (c.decrypt_in_place a nonce x)) [
    | inl h ↦ ap (λ p. p.1) (unseal-none t a nonce x h)
    | inr (plain, h) ↦ decrypted plain e h f
  ]
