-- ===== src/Common/Channel.antt =====
-- Two ends of an encrypted connection with messages in flight, for either way to seal a message.
-- Each message carries the nonce of the next one, so an end is the state of a chain.
pub mod Flow
pub mod Reached
pub mod Drained
pub mod Dead
pub mod Fifo
use tcp_handler.Base.{
  ℕ, ◌≡◌, none, some, true, false, List, [], ◌∷◌, ◌++◌, length, Outcome, ok, err, panic, Action,
}
use tcp_handler.Transport.{Bytes}
use tcp_handler.Crypto.{Crypto}
use tcp_handler.Common.Errors.{PacketError}
use tcp_handler.Common.Cipher.{InnerAesCipher, Cipher}

abbrev pub holding : {c : Crypto} → InnerAesCipher c → Cipher c
holding q = record { cipher = some q; poisoned = false }

-- A broken stream.
abbrev pub lost : {c : Crypto} → Cipher c
lost = record { cipher = none; poisoned = false }

-- What a panic leaves behind that was raised between the calls of `get` and `reset`.
abbrev pub ruined : {c : Crypto} → Cipher c
ruined = record { cipher = none; poisoned = true }

-- The closures of a `send` and a `recv`. What is sealed under a nonce is opened under that nonce,
-- and both leave the nonce that the message carries.
pub record Sealer (c : Crypto) : Type 0 where
  pub seal : Bytes → Bytes → Action (Cipher c) PacketError Bytes
  pub unseal : Bytes → Action (Cipher c) PacketError Bytes
  pub unseal-seal :
      (a : c.Aes) (nonce new_nonce message x : Bytes) (k : Cipher c)
      → length new_nonce ≡ 12
      → seal new_nonce message (holding (a, nonce)) ≡ (ok x, k)
      → (k ≡ holding (a, new_nonce))
        × (unseal x (holding (a, nonce)) ≡ (ok message, holding (a, new_nonce)))

-- An end: its cipher, the packets that are on the way to it, the messages that its calls of `send`
-- were given, and those that its calls of `recv` returned.
pub record Side (c : Crypto) : Type 0 where
  pub cipher : Cipher c
  pub inbox : List Bytes
  pub sent : List Bytes
  pub got : List Bytes

abbrev pub logged : List Bytes → Outcome PacketError Bytes → List Bytes
logged got (ok m) = got ++ m ∷ []
logged got (err e) = got
logged got panic = got

-- One call at one of the ends. An end sends only if nothing is on the way to it; it may send any
-- number of messages before the other end receives.
pub data Step {c : Crypto} (s : Sealer c) (me peer me' peer' : Side c) : Type 0 where
  sends :
      (new_nonce m x : Bytes) (k : Cipher c)
      → length new_nonce ≡ 12
      → me.inbox ≡ []
      → s.seal new_nonce m me.cipher ≡ (ok x, k)
      → me' ≡ record me { cipher = k; sent = me.sent ++ m ∷ [] }
      → peer' ≡ record peer { inbox = peer.inbox ++ x ∷ [] }
      → Step s me peer me' peer'
  receives :
      (x : Bytes) (rest : List Bytes) (o : Outcome PacketError Bytes) (k : Cipher c)
      → me.inbox ≡ x ∷ rest
      → s.unseal x me.cipher ≡ (o, k)
      → me' ≡ record me { cipher = k; inbox = rest; got = logged me.got o }
      → peer' ≡ peer
      → Step s me peer me' peer'

-- Calls at either end, in any order that the rule of `sends` allows.
pub data Reach {c : Crypto} (s : Sealer c) (me peer : Side c) : Side c → Side c → Type 0 where
  start : Reach s me peer me peer
  at_me : {a b a' b' : Side c} → Reach s me peer a b → Step s a b a' b' → Reach s me peer a' b'
  at_peer : {a b a' b' : Side c} → Reach s me peer a b → Step s b a b' a' → Reach s me peer a' b'
