-- ===== src/Common/Last.antt =====
-- `write_last`, `read_last` and `flush`: the server's answer to the head.
pub mod Wire
pub mod Refusal
pub mod Cut
use tcp_handler.Base.{
  Bool, true, false, if◌then◌else◌, Outcome, ok, err, panic, Action, ◌>>=◌, ◌>>◌, pure, raise, lift,
}
use tcp_handler.Transport.{Str, IoError, bools_2, string, Transport}
use tcp_handler.Common.Variant.{ProtocolVariant, from_bools, to_bools}
use tcp_handler.Common.Errors.{
  StarterError, invalid_protocol, invalid_identifier, invalid_version, starter,
}

module _ (t : Transport) where
  open t use {Writer, Reader, write, read}

  -- The inner `match &e` of `write_last`.
  unfoldable pub write_refusal :
      ProtocolVariant → Str → Str → StarterError → Action Writer StarterError (Unit {0})
  write_refusal protocol identifier version (invalid_protocol _) = do
    starter (write bools_2 (false, false))
    starter (write bools_2 (to_bools protocol))
  write_refusal protocol identifier version (invalid_identifier _) = do
    starter (write bools_2 (false, true))
    starter (write string identifier)
  write_refusal protocol identifier version (invalid_version _) = do
    starter (write bools_2 (true, false))
    starter (write string version)
  write_refusal protocol identifier version _ = pure tt

  -- A call that panicked leaves no `last`: that case only completes the function.
  unfoldable pub write_last {ℓ} :
      {A : Type ℓ}
      → ProtocolVariant
      → Str
      → Str
      → Outcome StarterError A
      → Action Writer StarterError A
  unfolding write_refusal
  write_last protocol identifier version (err e) = do
    write_refusal protocol identifier version e
    raise e
  write_last protocol identifier version (ok k) = do starter (write bools_2 (true, true)); pure k
  write_last protocol identifier version panic = lift panic

  -- The `match` of `read_last` on the state bits.
  unfoldable pub read_answer {ℓ} : {A : Type ℓ} → A → Bool × Bool → Action Reader StarterError A
  read_answer extra (true, true) = pure extra
  read_answer extra (false, false) = do
    bits ← starter (read bools_2)
    raise (invalid_protocol (from_bools bits))
  read_answer extra (false, true) = do
    identifier ← starter (read string)
    raise (invalid_identifier identifier)
  read_answer extra (true, false) = do
    version ← starter (read string)
    raise (invalid_version version)

  unfoldable pub read_last {ℓ} :
      {A : Type ℓ} → Outcome StarterError A → Action Reader StarterError A
  unfolding read_answer
  read_last last = do extra ← lift last; state ← starter (read bools_2); read_answer extra state

  -- The feature `auto_flush` is the first argument.
  unfoldable pub flush : Bool → Action Writer IoError (Unit {0})
  flush auto_flush = if auto_flush then t.flush else pure tt
