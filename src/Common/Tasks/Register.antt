-- ===== src/Common/Tasks/Register.antt =====
-- What an end keeps, without a mutex: the nonce of the next message, where there is one.
use tcp_handler.Base.{Option, none, some, Outcome, ok, err, panic, Action}
use tcp_handler.Transport.{Bytes, IoError}
use tcp_handler.Crypto.{Crypto}
use tcp_handler.Common.Errors.{PacketError, aes, broken}
use tcp_handler.Common.Cipher.{Cipher, read_nonce}
use tcp_handler.Common.Channel.{holding, lost, ruined}

pub data Register : Type 0 where
  ready : (nonce : Bytes) → Register
  -- A broken stream.
  shut : Register
  -- A panic under the lock.
  poisoned : Register

-- The mutex that holds the given key.
abbrev pub mutex : {c : Crypto} → c.Aes → Register → Cipher c
mutex a (ready nonce) = holding (a, nonce)
mutex a shut = lost
mutex a poisoned = ruined

-- A call uses the nonce that is kept, and what it makes of it keeps the next one; in a broken stream
-- it fails, and after a panic it panics.
abbrev pub with_nonce :
    (Bytes → Outcome PacketError Bytes × Register) → Action Register PacketError Bytes
with_nonce f (ready nonce) = f nonce
with_nonce f shut = (err broken, shut)
with_nonce f poisoned = (panic, poisoned)

-- A message that is encrypted, and the nonce that it announces.
abbrev pub announced : Bytes → Option Bytes → Outcome PacketError Bytes × Register
announced new_nonce none = (err aes, shut)
announced new_nonce (some x) = (ok x, ready new_nonce)

-- A message that is opened: the nonce that it announces stands before it.
abbrev pub parted : Outcome IoError (Bytes × Bytes) → Outcome PacketError Bytes × Register
parted (ok (new_nonce, m)) = (ok m, ready new_nonce)
parted (err e) = (err (PacketError.io e), shut)
parted panic = (panic, poisoned)

abbrev pub decrypted :
    (Bytes → Outcome PacketError Bytes × Register)
    → Option Bytes
    → Outcome PacketError Bytes × Register
decrypted f none = (err aes, shut)
decrypted f (some plain) = f plain

abbrev pub inflated : Outcome IoError Bytes → Outcome PacketError Bytes × Register
inflated (ok plain) = parted (read_nonce plain)
inflated (err e) = (err (PacketError.io e), shut)
inflated panic = (panic, poisoned)

-- A message that is compressed first, which fails without the nonce.
abbrev pub deflated :
    Outcome IoError Bytes
    → (Bytes → Action Register PacketError Bytes)
    → Action Register PacketError Bytes
deflated (ok plain) f k = f plain k
deflated (err e) f k = (err (PacketError.io e), k)
deflated panic f k = (panic, k)
