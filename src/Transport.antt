-- ===== src/Transport.antt =====
-- What the protocols use of tokio's `AsyncRead` and `AsyncWrite` and of the crate
-- variable-len-reader: one write and one read for each kind of datum, and a flush.
mod Defs
mod Laws
pub mod Emits
pub mod Reads
pub mod Answers
pub mod Starves
pub mod Limits
pub mod Carries
pub mod Delivers
pub mod Memory
pub use Defs.{Bytes, Str, IoError, unexpected_eof, write_zero, other}
pub use Defs.{Kind, fixed, u16_raw_be, bools_2, string, u8_vec, usize_varint_ap, Value, Transport}
pub use Laws.{Fits, IsLawful}
