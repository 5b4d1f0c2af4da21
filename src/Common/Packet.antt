-- ===== src/Common/Packet.antt =====
-- `write_packet` and `read_packet`: a length, then that many bytes.
pub mod Wire
use tcp_handler.Base.{
  ℕ, ltb, if◌then◌else◌, length, Outcome, ok, err, Action, ◌>>=◌, ◌>>◌, pure, lift,
}
use tcp_handler.Config.{Config, get_max_packet_size}
use tcp_handler.Transport.{Bytes, fixed, usize_varint_ap, Transport}
use tcp_handler.Common.Errors.{PacketError, too_large, packet}

unfoldable pub check_bytes_len : Config → ℕ → Outcome PacketError (Unit {0})
unfolding get_max_packet_size
check_bytes_len c len =
    let config = get_max_packet_size c in
    if ltb config len then err (too_large len config) else ok tt

module _ (t : Transport) where
  open t use {Writer, Reader, write, read}

  unfoldable pub write_packet : Config → Bytes → Action Writer PacketError (Unit {0})
  write_packet c bytes = do
    lift (check_bytes_len c (length bytes))
    packet (write usize_varint_ap (length bytes))
    packet (write (fixed (length bytes)) bytes)
    pure tt

  unfoldable pub read_packet : Config → Action Reader PacketError Bytes
  read_packet c = do
    len ← packet (read usize_varint_ap)
    lift (check_bytes_len c len)
    buf ← packet (read (fixed len))
    pure buf
