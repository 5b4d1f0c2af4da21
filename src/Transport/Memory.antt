-- ===== src/Transport/Memory.antt =====
-- A transport in memory that obeys the laws, to run the protocols on. A writer holds its bytes
-- back until a flush, as tokio's `BufWriter` does; a reader is what is left to read. Its code is
-- simpler than that of variable-len-reader, and a length or number is one element of the list.
pub mod Proofs
use tcp_handler.Base.{
  ℕ, zero, suc, ◌+◌, ◌*◌, ◌/◌, ◌%◌, ◌^◌, Bool, true, false, [], ◌∷◌, ◌++◌, length, take, drop, ltb,
  if◌then◌else◌, ok, err, Action,
}
use tcp_handler.Transport.Defs.{
  Bytes, IoError, unexpected_eof, other, Kind, fixed, u16_raw_be, bools_2, string, u8_vec,
  usize_varint_ap, Value, Transport,
}

pub record MemoryWriter : Type 0 where
  pub sent : Bytes
  pub buffered : Bytes

unfoldable pub encode : (k : Kind) → Value k → Bytes
encode (fixed n) v = v
encode u16_raw_be v = v / 256 ∷ v % 256 ∷ []
encode bools_2 (false, false) = 0 ∷ []
encode bools_2 (false, true) = 1 ∷ []
encode bools_2 (true, false) = 2 ∷ []
encode bools_2 (true, true) = 3 ∷ []
encode string v = length v ∷ v
encode u8_vec v = length v ∷ v
encode usize_varint_ap v = v ∷ []

unfoldable pub write : (k : Kind) → Value k → Action MemoryWriter IoError (Unit {0})
unfolding encode
write k v w = (ok tt, record w { buffered = w.buffered ++ encode k v })

unfoldable pub flush : Action MemoryWriter IoError (Unit {0})
flush w = (ok tt, record { sent = w.sent ++ w.buffered; buffered = [] })

read_fixed : ℕ → Action Bytes IoError Bytes
read_fixed n r = if ltb (length r) n then (err unexpected_eof, []) else (ok (take n r), drop n r)

-- The number is read, if it fits.
number : ℕ → ℕ → Action Bytes IoError ℕ
number bound v r = if ltb v bound then (ok v, r) else (err other, r)

read_u16 : Action Bytes IoError ℕ
unfolding number
read_u16 [] = (err unexpected_eof, [])
read_u16 (a ∷ []) = (err unexpected_eof, [])
read_u16 (a ∷ b ∷ r) = number (2 ^ 16) (a * 256 + b) r

read_bools : Action Bytes IoError (Bool × Bool)
read_bools [] = (err unexpected_eof, [])
read_bools (zero ∷ r) = (ok (false, false), r)
read_bools (suc zero ∷ r) = (ok (false, true), r)
read_bools (suc (suc zero) ∷ r) = (ok (true, false), r)
read_bools (suc (suc (suc n)) ∷ r) = (ok (true, true), r)

read_vec : Action Bytes IoError Bytes
unfolding read_fixed
read_vec [] = (err unexpected_eof, [])
read_vec (n ∷ r) = read_fixed n r

read_usize : Action Bytes IoError ℕ
unfolding number
read_usize [] = (err unexpected_eof, [])
read_usize (n ∷ r) = number (2 ^ 64) n r

unfoldable pub read : (k : Kind) → Action Bytes IoError (Value k)
unfolding read_fixed read_u16 read_bools read_vec read_usize
read (fixed n) = read_fixed n
read u16_raw_be = read_u16
read bools_2 = read_bools
read string = read_vec
read u8_vec = read_vec
read usize_varint_ap = read_usize

abbrev pub memory : Transport
memory = record { Writer = MemoryWriter; Reader = Bytes; write = write; flush = flush; read = read }
