-- ===== src/Transport/Defs.antt =====
-- The operations of a byte stream that the protocols call.
use tcp_handler.Base.{ℕ, Bool, List, Action}

-- `[u8]`, `Vec<u8>`, `BytesMut`.
abbrev pub Bytes : Type 0
Bytes = List ℕ

-- `str` and `String`: the bytes of their UTF-8.
abbrev pub Str : Type 0
Str = Bytes

-- `std::io::Error` by the kinds that matter here: the protocols only pass such errors on.
pub data IoError : Type 0 where
  unexpected_eof write_zero other : IoError

-- The pairs of methods of variable-len-reader: `write_more` and `read_more` over a buffer of a
-- given size, `write_u16_raw_be` and `read_u16_raw_be`, and so on.
pub data Kind : Type 0 where
  fixed : ℕ → Kind
  u16_raw_be bools_2 string u8_vec usize_varint_ap : Kind

abbrev pub Value : Kind → Type 0
Value (fixed n) = Bytes
Value u16_raw_be = ℕ
Value bools_2 = Bool × Bool
Value string = Str
Value u8_vec = Bytes
Value usize_varint_ap = ℕ

-- A stream's two halves, with the states that the calls leave them in.
pub record Transport : Type 1 where
  pub Writer : Type 0
  pub Reader : Type 0
  pub write : (k : Kind) → Value k → Action Writer IoError (Unit {0})
  pub flush : Action Writer IoError (Unit {0})
  pub read : (k : Kind) → Action Reader IoError (Value k)
