-- ===== src/CompressEncrypt/Sealing.antt =====
-- The closures of `send` and `recv` in the compress_encrypt protocol.
use tcp_handler.Base.{
  ℕ, ◌≡◌, refl, sym, ap, ◌∙◌, ◌++◌, none, some, inl, inr, length, Option-cases, Outcome, ok, err,
  panic, ◌>>=◌, ltb, Bool-cases, Outcome-cases,
}
use tcp_handler.Transport.{Bytes, IoError, Transport}
use tcp_handler.Crypto.{Crypto, IsCrypto, Deflate, IsDeflate}
use tcp_handler.Common.Errors.{PacketError, aes}
use tcp_handler.Common.Cipher.{Cipher, get, guarded, reset, read_nonce-append, read_nonce}
use tcp_handler.Common.Channel.{holding, lost, ruined, Sealer}
use tcp_handler.CompressEncrypt.{seal, unseal}

-- What a message becomes: its nonce and it are deflated and then encrypted.
pub record Sealed (c : Crypto) (d : Deflate) (level : ℕ) (a : c.Aes)
    (nonce new_nonce message x : Bytes) : Type 0 where
  pub plain : Bytes
  pub deflated : d.deflate level (new_nonce ++ message) ≡ ok plain
  pub encrypted : c.encrypt_in_place a nonce plain ≡ some x

module _ (t : Transport) {c : Crypto} (d : Deflate) (level : ℕ) (a : c.Aes)
    (nonce new_nonce message x : Bytes) where
  pub seal-Sealed :
      Sealed c d level a nonce new_nonce message x
      → seal t c d level new_nonce message (holding (a, nonce)) ≡ (ok x, holding (a, new_nonce))
  unfolding seal get guarded reset ◌>>=◌
  seal-Sealed s = rw (s.deflated, s.encrypted)

  seal-none :
      (plain : Bytes)
      → d.deflate level (new_nonce ++ message) ≡ ok plain
      → c.encrypt_in_place a nonce plain ≡ none
      → seal t c d level new_nonce message (holding (a, nonce)) ≡ (err aes, lost)
  unfolding seal get guarded ◌>>=◌
  seal-none plain h e = rw (h, e)

  seal-err :
      (e : IoError)
      → d.deflate level (new_nonce ++ message) ≡ err e
      → seal t c d level new_nonce message (holding (a, nonce))
        ≡ (err (PacketError.io e), holding (a, nonce))
  unfolding seal ◌>>=◌
  seal-err e h = rw h

  seal-panic :
      d.deflate level (new_nonce ++ message) ≡ panic
      → seal t c d level new_nonce message (holding (a, nonce)) ≡ (panic, holding (a, nonce))
  unfolding seal ◌>>=◌
  seal-panic h = rw h

  pub unseal-some :
      (plain : Bytes)
      → length new_nonce ≡ 12
      → c.decrypt_in_place a nonce x ≡ some plain
      → d.inflate plain ≡ ok (new_nonce ++ message)
      → unseal t c d x (holding (a, nonce)) ≡ (ok message, holding (a, new_nonce))
  unfolding unseal get guarded reset ◌>>=◌
  unseal-some plain h e i = rw (e, i, read_nonce-append new_nonce message h)

pub unseal-none :
    (t : Transport) {c : Crypto} (d : Deflate) (a : c.Aes) (nonce x : Bytes)
    → c.decrypt_in_place a nonce x ≡ none
    → unseal t c d x (holding (a, nonce)) ≡ (err aes, lost)
unfolding unseal get guarded ◌>>=◌
unseal-none t d a nonce x e = rw e

-- A packet that decrypts to no deflated data breaks the stream too.
pub unseal-garbled :
    (t : Transport) {c : Crypto} (d : Deflate) (a : c.Aes) (nonce x plain : Bytes) (e : IoError)
    → c.decrypt_in_place a nonce x ≡ some plain
    → d.inflate plain ≡ err e
    → unseal t c d x (holding (a, nonce)) ≡ (err (PacketError.io e), lost)
unfolding unseal get guarded ◌>>=◌
unseal-garbled t d a nonce x plain e h i = rw (h, i)

err-ne-ok : {e : PacketError} {z : Bytes} → ◌≡◌ {A = Outcome PacketError Bytes} (err e) (ok z) → ⊥
err-ne-ok h = cc

panic-ne-ok : {z : Bytes} → ◌≡◌ {A = Outcome PacketError Bytes} panic (ok z) → ⊥
panic-ne-ok h = cc

ok_injective : {y z : Bytes} → ◌≡◌ {A = Outcome PacketError Bytes} (ok y) (ok z) → y ≡ z
ok_injective h = cc

module _ (t : Transport) {c : Crypto} (d : Deflate) (level : ℕ) (a : c.Aes)
    (nonce new_nonce message x : Bytes) (k : Cipher c) where
  after_deflate :
      (plain : Bytes)
      → d.deflate level (new_nonce ++ message) ≡ ok plain
      → seal t c d level new_nonce message (holding (a, nonce)) ≡ (ok x, k)
      → Sealed c d level a nonce new_nonce message x × (k ≡ holding (a, new_nonce))
  after_deflate plain h e = elim (Option-cases (c.encrypt_in_place a nonce plain)) [
    | inl failed ↦ absurd (
        err-ne-ok (
          ap (λ p. p.0) (sym (seal-none t d level a nonce new_nonce message x plain h failed) ∙ e)))
    | inr (y, some_y) ↦
        let same =
          sym (
            seal-Sealed t d level a nonce new_nonce message y
              (record { plain = plain; deflated = h; encrypted = some_y }))
          ∙ e in
        (
          record {
            plain = plain;
            deflated = h;
            encrypted = some_y ∙ ap some (ok_injective (ap (λ p. p.0) same));
          },
          sym (ap (λ p. p.1) same),
        )
  ]

  by_result :
      (o : Outcome IoError Bytes)
      → d.deflate level (new_nonce ++ message) ≡ o
      → seal t c d level new_nonce message (holding (a, nonce)) ≡ (ok x, k)
      → Sealed c d level a nonce new_nonce message x × (k ≡ holding (a, new_nonce))
  by_result (ok plain) h e = after_deflate plain h e
  by_result (err z) h e =
      absurd
        (err-ne-ok (ap (λ p. p.0) (sym (seal-err t d level a nonce new_nonce message x z h) ∙ e)))
  by_result panic h e =
      absurd
        (panic-ne-ok (ap (λ p. p.0) (sym (seal-panic t d level a nonce new_nonce message x h) ∙ e)))

  -- What a successful `seal` did.
  pub seal-ok :
      seal t c d level new_nonce message (holding (a, nonce)) ≡ (ok x, k)
      → Sealed c d level a nonce new_nonce message x × (k ≡ holding (a, new_nonce))
  seal-ok e = by_result (d.deflate level (new_nonce ++ message)) refl e

module _ (t : Transport) {c : Crypto} (ic : IsCrypto c) {d : Deflate} (id : IsDeflate d)
    (level : ℕ) where
  pub unseal-Sealed :
      (a : c.Aes) (nonce new_nonce message x : Bytes)
      → length new_nonce ≡ 12
      → Sealed c d level a nonce new_nonce message x
      → unseal t c d x (holding (a, nonce)) ≡ (ok message, holding (a, new_nonce))
  unseal-Sealed a nonce new_nonce message x len s =
      unseal-some t d level a nonce new_nonce message x s.plain len
        (ic.decrypt-encrypt a nonce s.plain x s.encrypted)
        (id.inflate-deflate level (new_nonce ++ message) s.plain s.deflated)

  unfoldable pub sealer : Sealer c
  sealer = record {
    seal = seal t c d level;
    unseal = unseal t c d;
    unseal-seal = λ a nonce new_nonce message x k len e.
        let (sealed, kept) = seal-ok t d level a nonce new_nonce message x k e in
        (kept, unseal-Sealed a nonce new_nonce message x len sealed);
  }

pub panic-ne-err : {e : PacketError} → ◌≡◌ {A = Outcome PacketError Bytes} panic (err e) → ⊥
panic-ne-err h = cc

ok-ne-err : {e : PacketError} {z : Bytes} → ◌≡◌ {A = Outcome PacketError Bytes} (ok z) (err e) → ⊥
ok-ne-err h = cc

-- An error of `unseal` leaves nothing in the mutex.
module _ (t : Transport) {c : Crypto} (d : Deflate) (a : c.Aes) (nonce x : Bytes) where
  inflated :
      (plain y : Bytes) (e : PacketError)
      → c.decrypt_in_place a nonce x ≡ some plain
      → d.inflate plain ≡ ok y
      → (unseal t c d x (holding (a, nonce))).0 ≡ err e
      → (unseal t c d x (holding (a, nonce))).1 ≡ lost
  unfolding unseal get guarded reset read_nonce ◌>>=◌
  inflated plain y e h i f = elim (Bool-cases (ltb (length y) 12)) [
    | inl short ↦ rw (h, i, short) refl
    | inr long ↦ absurd (ok-ne-err (rw (h, i, long) at f))
  ]

  pub unseal-panic :
      (plain : Bytes)
      → c.decrypt_in_place a nonce x ≡ some plain
      → d.inflate plain ≡ panic
      → unseal t c d x (holding (a, nonce)) ≡ (panic, ruined)
  unfolding unseal get guarded ◌>>=◌
  unseal-panic plain h i = rw (h, i) refl

  decrypted :
      (plain : Bytes) (e : PacketError)
      → c.decrypt_in_place a nonce x ≡ some plain
      → (unseal t c d x (holding (a, nonce))).0 ≡ err e
      → (unseal t c d x (holding (a, nonce))).1 ≡ lost
  decrypted plain e h f = elim (Outcome-cases (d.inflate plain)) [
    | inl (y, i) ↦ inflated plain y e h i f
    | inr (inl (z, i)) ↦ ap (λ p. p.1) (unseal-garbled t d a nonce x plain z h i)
    | inr (inr i) ↦ absurd (panic-ne-err (sym (ap (λ p. p.0) (unseal-panic plain h i)) ∙ f))
  ]

  pub failed_unseal :
      (e : PacketError)
      → (unseal t c d x (holding (a, nonce))).0 ≡ err e
      → (unseal t c d x (holding (a, nonce))).1 ≡ lost
  failed_unseal e f = elim (Option-cases (c.decrypt_in_place a nonce x)) [
    | inl h ↦ ap (λ p. p.1) (unseal-none t d a nonce x h)
    | inr (plain, h) ↦ decrypted plain e h f
  ]
