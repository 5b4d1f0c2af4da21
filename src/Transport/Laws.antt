-- ===== src/Transport/Laws.antt =====
-- What the protocols rely on: reading undoes writing, and a writer sends what it accepted.
use tcp_handler.Base.{◌^◌, ◌<◌, ◌≡◌, ◌≢◌, ◌++◌, [], ok, err, length}
use tcp_handler.Transport.Defs.{
  Bytes, unexpected_eof, Kind, fixed, u16_raw_be, usize_varint_ap, Value, Transport,
}

-- The values of a kind: the ranges of Rust's types, and the size of the buffer.
abbrev pub Fits : (k : Kind) → Value k → Type 0
Fits (fixed n) v = length v ≡ n
Fits u16_raw_be v = v < 2 ^ 16
Fits usize_varint_ap v = v < 2 ^ 64
Fits _ v = Unit {0}

-- `pending` is all that a reader will get before the end of the stream. A write puts bytes into
-- `accepted`; what a buffering writer has passed on of them is `delivered`.
-- A writer is healthy while its peer takes what it sends.
pub record IsLawful (t : Transport) : Type 1 where
  pub encode : (k : Kind) → Value k → Bytes
  pub accepted : t.Writer → Bytes
  pub delivered : t.Writer → Bytes
  pub Healthy : t.Writer → Type 0
  pub pending : t.Reader → Bytes
  pub write-healthy :
      (k : Kind) (v : Value k) (w : t.Writer)
      → Fits k v
      → Healthy w
      → ((t.write k v w).0 ≡ ok tt)
        × Healthy (t.write k v w).1
        × (accepted (t.write k v w).1 ≡ accepted w ++ encode k v)
  pub flush-healthy :
      (w : t.Writer)
      → Healthy w
      → ((t.flush w).0 ≡ ok tt)
        × Healthy (t.flush w).1
        × (accepted (t.flush w).1 ≡ accepted w)
        × (delivered (t.flush w).1 ≡ accepted w)
  -- A write that fails has appended a part of the datum, from its start.
  pub write-prefix :
      (k : Kind) (v : Value k) (w : t.Writer)
      → (p : Bytes) × (q : Bytes) × (encode k v ≡ p ++ q)
        × (accepted (t.write k v w).1 ≡ accepted w ++ p)
        × ((t.write k v w).0 ≡ ok tt → q ≡ [])
  pub flush-accepted : (w : t.Writer) → accepted (t.flush w).1 ≡ accepted w
  pub read-encode :
      (k : Kind) (v : Value k) (rest : Bytes) (r : t.Reader)
      → Fits k v
      → pending r ≡ encode k v ++ rest
      → ((t.read k r).0 ≡ ok v) × (pending (t.read k r).1 ≡ rest)
  -- The stream ends in the middle of a datum.
  pub read-truncated :
      (k : Kind) (v : Value k) (p q : Bytes) (r : t.Reader)
      → Fits k v
      → encode k v ≡ p ++ q
      → q ≢ []
      → pending r ≡ p
      → (t.read k r).0 ≡ err unexpected_eof
  pub read-Fits : (k : Kind) (v : Value k) (r : t.Reader) → (t.read k r).0 ≡ ok v → Fits k v
