-- ===== src/Common/Errors.antt =====
-- `PacketError` and `StarterError`.
use tcp_handler.Base.{ℕ, Action, convert}
use tcp_handler.Transport.{Str, IoError}
use tcp_handler.Common.Variant.{ProtocolVariant}

-- `rsa::Error`, told apart by a number.
pub data RsaError : Type 0 where
  rsa_error : ℕ → RsaError

pub data PacketError : Type 0 where
  too_large : ℕ → ℕ → PacketError
  io : IoError → PacketError
  aes : PacketError
  broken : PacketError

pub data StarterError : Type 0 where
  invalid_stream : StarterError
  invalid_protocol : ProtocolVariant → StarterError
  invalid_identifier : Str → StarterError
  invalid_version : Str → StarterError
  io : IoError → StarterError
  rsa : RsaError → StarterError

-- `?` on an `io::Error`, in a function that returns a `StarterError`, and in one that returns a
-- `PacketError`.
module _ {ℓ κ} {S : Type ℓ} {A : Type κ} where
  abbrev pub starter : Action S IoError A → Action S StarterError A
  starter = convert StarterError.io

  abbrev pub packet : Action S IoError A → Action S PacketError A
  packet = convert PacketError.io
