-- ===== src/Mismatch.antt =====
-- A client of one protocol at a server of another one: the four functions of each protocol's
-- handshake as the two sides of it, for any protocol on either side.
pub mod Sides
pub mod Refused
use tcp_handler.Base.{Bool, Outcome, Action}
use tcp_handler.Transport.{Bytes, Str, Transport}
use tcp_handler.Crypto.{Crypto}
use tcp_handler.Common.Variant.{ProtocolVariant, raw, compression, encryption, compress_encryption}
use tcp_handler.Common.Errors.{StarterError}
use tcp_handler.Raw
use tcp_handler.Compress
use tcp_handler.Encrypt
use tcp_handler.CompressEncrypt

-- `init` and `start`, with the key that `init` gives to `start`.
pub record ClientSide (t : Transport) : Type 1 where
  pub Key : Type 0
  pub Done : Type 0
  pub init : Action t.Writer StarterError Key
  pub start : Outcome StarterError Key → Action t.Reader StarterError Done

pub record ServerSide (t : Transport) : Type 1 where
  pub Opened : Type 0
  pub Done : Type 0
  pub init : Action t.Reader StarterError Opened
  pub start : Outcome StarterError Opened → Action t.Writer StarterError Done

module _ {t : Transport} {A B : Type 0} where
  abbrev pub client_of :
      Action t.Writer StarterError A
      → (Outcome StarterError A → Action t.Reader StarterError B)
      → ClientSide t
  client_of init start = record { Key = A; Done = B; init = init; start = start }

  abbrev pub server_of :
      Action t.Reader StarterError A
      → (Outcome StarterError A → Action t.Writer StarterError B)
      → ServerSide t
  server_of init start = record { Opened = A; Done = B; init = init; start = start }

module _ (t : Transport) (c : Crypto) (af : Bool) where
  unfoldable pub client_side : c.Seed → Str → Str → ProtocolVariant → ClientSide t
  client_side seed i v raw = client_of (Raw.client_init t af i v) (Raw.client_start t)
  client_side seed i v compression =
      client_of (Compress.client_init t af i v) (Compress.client_start t)
  client_side seed i v encryption =
      client_of (Encrypt.client_init t c af seed i v) (Encrypt.client_start t c)
  client_side seed i v compress_encryption =
      client_of (CompressEncrypt.client_init t c af seed i v) (CompressEncrypt.client_start t c)

  unfoldable pub server_side :
      Bytes → Bytes → c.Seed → Str → Str → (Str → Bool) → ProtocolVariant → ServerSide t
  server_side aes_key nonce seed j w accepts raw =
      server_of (Raw.server_init t j accepts) (Raw.server_start t af j w)
  server_side aes_key nonce seed j w accepts compression =
      server_of (Compress.server_init t j accepts) (Compress.server_start t af j w)
  server_side aes_key nonce seed j w accepts encryption =
      server_of (Encrypt.server_init t c j accepts)
        (Encrypt.server_start t c af aes_key nonce seed j w)
  server_side aes_key nonce seed j w accepts compress_encryption =
      server_of (CompressEncrypt.server_init t c j accepts)
        (CompressEncrypt.server_start t c af aes_key nonce seed j w)
