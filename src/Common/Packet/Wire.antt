-- ===== src/Common/Packet/Wire.antt =====
-- A packet on the wire, within the limit and above it.
use tcp_handler.Base.{
  ℕ, ◌^◌, ◌≤◌, ◌<◌, ◌≡◌, refl, ◌++◌, length, le→ltb, lt→ltb, ok, err, ◌>>=◌, bind-ok, map_err-ok,
  lift, pure, arith,
}
use tcp_handler.Config.{Config}
use tcp_handler.Transport.{Bytes, unexpected_eof, fixed, usize_varint_ap, Transport, IsLawful}
use tcp_handler.Transport.Emits.{
  Emits, Emits-bind, Emits-step, Emits-end, Emits-write, Emits-pure, Emits-lift,
}
use tcp_handler.Transport.Reads.{
  Reads, Reads-bind, Reads-bind_err, Reads-step, Reads-end, Reads-read, Reads-pure, Reads-lift,
}
use tcp_handler.Transport.Limits.{
  Limits, Limits-bind, Limits-end, Limits-write, Limits-pure, Limits-lift,
}
use tcp_handler.Transport.Starves.{
  Starves, Starves-step, Starves-bind, Starves-end, Starves-read, Starves-none,
}
use tcp_handler.Common.Errors.{PacketError, too_large, packet}
use tcp_handler.Common.Packet.{check_bytes_len, write_packet, read_packet}

pub check_bytes_len-within :
    (c : Config) (n : ℕ) → n ≤ c.max_packet_size → check_bytes_len c n ≡ ok tt
unfolding check_bytes_len
check_bytes_len-within c n h = rw (le→ltb c.max_packet_size n h)

pub check_bytes_len-above :
    (c : Config) (n : ℕ)
    → c.max_packet_size < n
    → check_bytes_len c n ≡ err (too_large n c.max_packet_size)
unfolding check_bytes_len
check_bytes_len-above c n h = rw (lt→ltb c.max_packet_size n h)

pub check_bytes_len-ok : (c : Config) (n : ℕ) → check_bytes_len c n ≡ ok tt → n ≤ c.max_packet_size
unfolding check_bytes_len
check_bytes_len-ok c n h = ground arith

-- The writer is not touched.
pub write_packet-above :
    (t : Transport) (c : Config) (bytes : Bytes) (w : t.Writer)
    → c.max_packet_size < length bytes
    → write_packet t c bytes w ≡ (err (too_large (length bytes) c.max_packet_size), w)
unfolding write_packet ◌>>=◌
write_packet-above t c bytes w h = rw (check_bytes_len-above c _ h)

module _ {t : Transport} (l : IsLawful t) where
  open l use {encode}

  abbrev pub packet_bytes : Bytes → Bytes
  packet_bytes bytes = encode usize_varint_ap (length bytes) ++ encode (fixed (length bytes)) bytes

  module _ (c : Config) (bytes : Bytes) (valid : c.max_packet_size < 2 ^ 64) where
    pub Emits-write_packet :
        length bytes ≤ c.max_packet_size
        → Emits l (packet_bytes bytes) (ok tt) (write_packet t c bytes)
    unfolding write_packet
    Emits-write_packet h = rw (check_bytes_len-within c _ h) (
        Emits-bind l _ _ (Emits-lift l (ok tt)) (
          Emits-step l usize_varint_ap (length bytes) _ _ (omega arith) (
            Emits-end l _ _ (Emits-write l _ (fixed (length bytes)) bytes refl) (Emits-pure l tt))))

    pub Reads-read_packet :
        length bytes ≤ c.max_packet_size → Reads l (packet_bytes bytes) (ok bytes) (read_packet t c)
    unfolding read_packet
    Reads-read_packet h = Reads-step l usize_varint_ap (length bytes) _ _ (omega arith) (
        rw (check_bytes_len-within c _ h) (
          Reads-bind l _ _ (Reads-lift l (ok tt)) (
            Reads-end l _ _ (Reads-read l _ (fixed (length bytes)) bytes refl)
              (Reads-pure l bytes))))

    pub Starves-read_packet :
        length bytes ≤ c.max_packet_size
        → Starves l (packet_bytes bytes) (PacketError.io unexpected_eof) (read_packet t c)
    unfolding read_packet
    Starves-read_packet h = Starves-step l usize_varint_ap (length bytes) _ _ (omega arith) (
        rw (check_bytes_len-within c _ h) (
          Starves-bind l _ _ (Reads-lift l (ok tt)) (Starves-none l _ _)
            (Starves-end l _ _ (Starves-read l _ (fixed (length bytes)) bytes refl))))

    -- The reader refuses a packet that is too long when it has its length.
    pub Answers-read_packet :
        length bytes < 2 ^ 64
        → c.max_packet_size < length bytes
        → Reads l
            (encode usize_varint_ap (length bytes))
            (err (too_large (length bytes) c.max_packet_size))
            (read_packet t c)
    unfolding read_packet
    Answers-read_packet fits h =
        Reads-end l _ _ (Reads-read l _ usize_varint_ap (length bytes) fits)
          (rw (check_bytes_len-above c _ h) (Reads-bind_err l _ _ (Reads-lift l _)))

  -- Whatever becomes of the writer.
  pub Limits-write_packet :
      (c : Config) (bytes : Bytes) → Limits l (packet_bytes bytes) (write_packet t c bytes)
  unfolding write_packet
  Limits-write_packet c bytes = Limits-bind l _ _ (Limits-lift l _) (λ _.
      Limits-bind l _ _ (Limits-write l _ usize_varint_ap (length bytes)) (λ _.
        Limits-end l _ _ (Limits-write l _ (fixed (length bytes)) bytes) (λ _. Limits-pure l tt)))

  -- Whatever comes in, no buffer is longer than the limit.
  pub read_packet-bounded :
      (c : Config) (r : t.Reader) (buf : Bytes)
      → (read_packet t c r).0 ≡ ok buf
      → length buf ≤ c.max_packet_size
  unfolding read_packet
  read_packet-bounded c r buf h =
      let (len, e, k) = bind-ok (packet (t.read usize_varint_ap)) _ r buf h in
      let (_, e', k') = bind-ok (lift (check_bytes_len c len)) _ _ buf k in
      let (b, e'', k'') = bind-ok (packet (t.read (fixed len))) pure _ buf k' in
      ground (
        arith,
        l.read-Fits (fixed len) b _ (map_err-ok PacketError.io _ b e''),
        check_bytes_len-ok c len e',
        k'',
      )
