-- ===== src/Common/Cipher.antt =====
-- `Cipher`: the mutex over the AES cipher and the nonce of the next message. A call holds the
-- lock from `get` to the end of its closure, in which nothing is awaited: so each closure is one
-- step on the mutex.
use tcp_handler.Base.{
  Option, none, some, ◌≡◌, ◌++◌, length, take, drop, length-append, take-append, drop-append, ltb,
  if◌then◌else◌, Outcome, ok, err, Action, arith, [], ◌∷◌, Bool, true, false, panic,
}
use tcp_handler.Transport.{Bytes, Str, IoError, unexpected_eof}
use tcp_handler.Crypto.{Crypto}
use tcp_handler.Common.Errors.{PacketError, broken}

-- "<locked>", "<unlocked>" and "<broken>"
abbrev pub text_locked : Str
text_locked = 60 ∷ 108 ∷ 111 ∷ 99 ∷ 107 ∷ 101 ∷ 100 ∷ 62 ∷ []

abbrev pub text_unlocked : Str
text_unlocked = 60 ∷ 117 ∷ 110 ∷ 108 ∷ 111 ∷ 99 ∷ 107 ∷ 101 ∷ 100 ∷ 62 ∷ []

abbrev pub text_broken : Str
text_broken = 60 ∷ 98 ∷ 114 ∷ 111 ∷ 107 ∷ 101 ∷ 110 ∷ 62 ∷ []

-- The cipher, and the nonce.
abbrev pub InnerAesCipher : Crypto → Type 0
InnerAesCipher c = c.Aes × Bytes

-- The mutex: its content, `none` in a broken stream, and whether a thread panicked while it held
-- the lock.
pub record Cipher (c : Crypto) : Type 0 where
  pub cipher : Option (InnerAesCipher c)
  pub poisoned : Bool

shown : {A : Type 0} → Option A → Str
shown none = text_broken
shown (some cipher) = text_unlocked

module _ {c : Crypto} where
  unfoldable pub new : InnerAesCipher c → Cipher c
  new cipher = record { cipher = some cipher; poisoned = false }

  -- `take` leaves the mutex empty.
  take_or_broken : Option (InnerAesCipher c) → Outcome PacketError (InnerAesCipher c) × Cipher c
  take_or_broken none = (err broken, record { cipher = none; poisoned = false })
  take_or_broken (some cipher) = (ok cipher, record { cipher = none; poisoned = false })

  -- `lock().unwrap()` panics on a poisoned mutex.
  unfoldable pub get : Action (Cipher c) PacketError (InnerAesCipher c)
  unfolding take_or_broken
  get s = if s.poisoned then (panic, s) else take_or_broken s.cipher

  unfoldable pub reset : InnerAesCipher c → Action (Cipher c) PacketError (Unit {0})
  reset cipher s = (ok tt, record s { cipher = some cipher })

  unwound : {A : Type 0} → Outcome PacketError A × Cipher c → Outcome PacketError A × Cipher c
  unwound (ok a, s) = (ok a, s)
  unwound (err e, s) = (err e, s)
  unwound (panic, s) = (panic, record s { poisoned = true })

  -- What runs between `get` and the end of the closure, where the guard is dropped: a panic poisons
  -- the mutex.
  unfoldable pub guarded :
      {A : Type 0} → Action (Cipher c) PacketError A → Action (Cipher c) PacketError A
  unfolding unwound
  guarded m s = unwound (m s)

  -- `Debug::fmt`: the text of the field, where `held` tells whether a thread holds the lock. A
  -- `try_lock` fails on a held and on a poisoned mutex.
  unfoldable pub fmt : Bool → Cipher c → Str
  unfolding shown
  fmt held s = if held then text_locked else if s.poisoned then text_locked else shown s.cipher

-- `reader.read_more(&mut new_nonce)` over a buffer in memory, with what `into_inner` returns then.
unfoldable pub read_nonce : Bytes → Outcome IoError (Bytes × Bytes)
read_nonce bytes =
    if ltb (length bytes) 12 then err unexpected_eof else ok (take 12 bytes, drop 12 bytes)

pub read_nonce-append :
    (nonce m : Bytes) → length nonce ≡ 12 → read_nonce (nonce ++ m) ≡ ok (nonce, m)
unfolding read_nonce
read_nonce-append nonce m h =
    rw (← h) (ground (arith, length-append nonce m, take-append nonce m, drop-append nonce m))
