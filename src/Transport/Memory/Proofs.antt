-- ===== src/Transport/Memory/Proofs.antt =====
-- The transport in memory obeys the laws.
use tcp_handler.Base.{
  ℕ, ◌/◌, ◌%◌, ◌<◌, ◌≡◌, ◌≢◌, refl, sym, ap, Bool, true, false, [], ◌∷◌, ◌++◌, append_assoc,
  append-nil, length, drop, length-append, take-append, drop-append, length-take, ok, err, arith,
}
use tcp_handler.Transport.Defs.{
  Bytes, unexpected_eof, Kind, fixed, u16_raw_be, bools_2, string, u8_vec, usize_varint_ap, Value,
}
use tcp_handler.Transport.Laws.{Fits, IsLawful}
use tcp_handler.Transport.Memory.{encode, write, flush, read_fixed, read_vec, read, memory}

read_fixed-append : (v rest : Bytes) → read_fixed (length v) (v ++ rest) ≡ (ok v, rest)
unfolding read_fixed
read_fixed-append v rest =
    ground (arith, length-append v rest, take-append v rest, drop-append v rest)

read_fixed-short : (n : ℕ) (r : Bytes) → length r < n → (read_fixed n r).0 ≡ err unexpected_eof
unfolding read_fixed
read_fixed-short n r h = ground arith

shorter : (v p q : Bytes) → v ≡ p ++ q → q ≢ [] → length p < length v
shorter v p [] e n = absurd (n refl)
shorter v p (x ∷ q) e n = omega (arith, ap length e, length-append p (x ∷ q))

pub read-encode_memory :
    (k : Kind) (v : Value k) (rest r : Bytes)
    → Fits k v
    → r ≡ encode k v ++ rest
    → read k r ≡ (ok v, rest)
unfolding read encode
read-encode_memory (fixed n) v rest r h e = rw (e, ← h) (read_fixed-append v rest)
read-encode_memory u16_raw_be v rest r h e = rw e (ground arith)
read-encode_memory bools_2 (false, false) rest r h e = rw e
read-encode_memory bools_2 (false, true) rest r h e = rw e
read-encode_memory bools_2 (true, false) rest r h e = rw e
read-encode_memory bools_2 (true, true) rest r h e = rw e
read-encode_memory string v rest r h e = rw e (read_fixed-append v rest)
read-encode_memory u8_vec v rest r h e = rw e (read_fixed-append v rest)
read-encode_memory usize_varint_ap v rest r h e = rw e (ground arith)

length-encode_bools : (v : Bool × Bool) → length (encode bools_2 v) ≡ 1
unfolding encode
length-encode_bools (false, false) = refl
length-encode_bools (false, true) = refl
length-encode_bools (true, false) = refl
length-encode_bools (true, true) = refl

read_vec-short :
    (v : Bytes) (x : ℕ) (p q : Bytes)
    → length v ∷ v ≡ (x ∷ p) ++ q
    → q ≢ []
    → (read_vec (x ∷ p)).0 ≡ err unexpected_eof
unfolding read_vec
read_vec-short v x p q e ne =
    read_fixed-short x p (omega (arith, shorter v p q (ap (drop 1) e) ne, ap head_or e))
  where
    head_or : Bytes → ℕ
    head_or [] = 0
    head_or (a ∷ r) = a

pub read-truncated_memory :
    (k : Kind) (v : Value k) (p q : Bytes)
    → Fits k v
    → encode k v ≡ p ++ q
    → q ≢ []
    → (read k p).0 ≡ err unexpected_eof
unfolding read encode
read-truncated_memory (fixed n) v p q h e ne =
    read_fixed-short n p (omega (arith, shorter v p q e ne))
read-truncated_memory u16_raw_be v [] q h e ne = refl
read-truncated_memory u16_raw_be v (x ∷ []) q h e ne = refl
read-truncated_memory u16_raw_be v (x ∷ y ∷ p) q h e ne =
    absurd (omega (arith, shorter (v / 256 ∷ v % 256 ∷ []) (x ∷ y ∷ p) q e ne))
read-truncated_memory bools_2 v [] q h e ne = refl
read-truncated_memory bools_2 v (x ∷ p) q h e ne =
    absurd (omega (arith, length-encode_bools v, shorter (encode bools_2 v) (x ∷ p) q e ne))
read-truncated_memory string v [] q h e ne = refl
read-truncated_memory string v (x ∷ p) q h e ne = read_vec-short v x p q e ne
read-truncated_memory u8_vec v [] q h e ne = refl
read-truncated_memory u8_vec v (x ∷ p) q h e ne = read_vec-short v x p q e ne
read-truncated_memory usize_varint_ap v [] q h e ne = refl
read-truncated_memory usize_varint_ap v (x ∷ p) q h e ne =
    absurd (omega (arith, shorter (v ∷ []) (x ∷ p) q e ne))

read_fixed-length : (n : ℕ) (v r : Bytes) → (read_fixed n r).0 ≡ ok v → length v ≡ n
unfolding read_fixed
read_fixed-length n v r h = ground (arith, length-take n r)

pub read-Fits_memory : (k : Kind) (v : Value k) (r : Bytes) → (read k r).0 ≡ ok v → Fits k v
unfolding read
read-Fits_memory (fixed n) v r h = read_fixed-length n v r h
read-Fits_memory u16_raw_be v [] h = cc
read-Fits_memory u16_raw_be v (a ∷ []) h = cc
read-Fits_memory u16_raw_be v (a ∷ b ∷ r) h = ground arith
read-Fits_memory bools_2 v r h = tt
read-Fits_memory string v r h = tt
read-Fits_memory u8_vec v r h = tt
read-Fits_memory usize_varint_ap v [] h = cc
read-Fits_memory usize_varint_ap v (a ∷ r) h = ground arith

-- Everything is written at once, and no write fails.
unfoldable pub memory-IsLawful : IsLawful memory
unfolding write flush
memory-IsLawful = record {
  encode = encode;
  accepted = λ w. w.sent ++ w.buffered;
  delivered = λ w. w.sent;
  Healthy = λ w. Unit {0};
  pending = λ r. r;
  write-healthy = λ k v w fits h. (refl, tt, sym (append_assoc w.sent w.buffered (encode k v)));
  flush-healthy = λ w h. (refl, tt, append-nil _, refl);
  write-prefix = λ k v w. (
    encode k v,
    [],
    sym (append-nil _),
    sym (append_assoc w.sent w.buffered (encode k v)),
    λ e. refl,
  );
  flush-accepted = λ w. append-nil _;
  read-encode = λ k v rest r fits e. (
    ap (λ x. x.0) (read-encode_memory k v rest r fits e),
    ap (λ x. x.1) (read-encode_memory k v rest r fits e),
  );
  read-truncated = λ k v p q r fits e ne h. rw h (read-truncated_memory k v p q fits e ne);
  read-Fits = read-Fits_memory;
}
