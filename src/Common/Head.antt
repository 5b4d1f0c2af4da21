-- ===== src/Common/Head.antt =====
-- `write_head` and `read_head`: what the client says first.
pub mod Wire
pub mod Accepted
use tcp_handler.Base.{ℕ, Bool, [], ◌∷◌, ◌==◌, bytes_eq, Action, ◌>>=◌, ◌>>◌, pure, ensure}
use tcp_handler.Transport.{Bytes, Str, fixed, u16_raw_be, bools_2, string, Transport}
use tcp_handler.Common.Variant.{ProtocolVariant, from_bools, to_bools, variant_eq}
use tcp_handler.Common.Errors.{
  StarterError, invalid_stream, invalid_protocol, invalid_identifier, invalid_version, starter,
}

abbrev pub magic_bytes : Bytes
magic_bytes = 208 ∷ 8 ∷ 166 ∷ 104 ∷ []

abbrev pub magic_version : ℕ
magic_version = 1

module _ (t : Transport) where
  open t use {Writer, Reader, write, read}

  unfoldable pub write_head : ProtocolVariant → Str → Str → Action Writer StarterError (Unit {0})
  write_head protocol identifier version = do
    starter (write (fixed 4) magic_bytes)
    starter (write u16_raw_be magic_version)
    starter (write bools_2 (to_bools protocol))
    starter (write string identifier)
    starter (write string version)
    pure tt

  unfoldable pub read_head :
      ProtocolVariant → Str → (Str → Bool) → Action Reader StarterError (ℕ × Str)
  read_head protocol identifier version = do
    magic ← starter (read (fixed 4))
    ensure (bytes_eq magic magic_bytes) invalid_stream
    protocol_version ← starter (read u16_raw_be)
    ensure (protocol_version == magic_version) invalid_stream
    bits ← starter (read bools_2)
    let protocol_read = from_bools bits
    ensure (variant_eq protocol_read protocol) (invalid_protocol protocol_read)
    identifier_read ← starter (read string)
    ensure (bytes_eq identifier_read identifier) (invalid_identifier identifier_read)
    version_read ← starter (read string)
    ensure (version version_read) (invalid_version version_read)
    pure (protocol_version, version_read)
