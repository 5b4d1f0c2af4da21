-- ===== src/Compress.antt =====
-- src/protocols/compress.rs
pub mod Handshake
pub mod Messages
use tcp_handler.Base.{ℕ, Bool, Outcome, Action, ◌>>=◌, ◌>>◌, pure, lift}
use tcp_handler.Config.{Config, get_compression}
use tcp_handler.Transport.{Bytes, Str, Transport}
use tcp_handler.Crypto.{Deflate}
use tcp_handler.Common.Variant.{compression}
use tcp_handler.Common.Errors.{PacketError, StarterError, starter, packet}
use tcp_handler.Common.Head.{write_head, read_head}
use tcp_handler.Common.Last.{write_last, read_last, flush}
use tcp_handler.Common.Packet.{write_packet, read_packet}

module _ (t : Transport) where
  open t use {Writer, Reader}

  unfoldable pub client_init : Bool → Str → Str → Action Writer StarterError (Unit {0})
  client_init auto_flush identifier version = do
    write_head t compression identifier version
    starter (flush t auto_flush)
    pure tt

  unfoldable pub server_init : Str → (Str → Bool) → Action Reader StarterError (ℕ × Str)
  server_init identifier version = read_head t compression identifier version

  unfoldable pub client_start :
      Outcome StarterError (Unit {0}) → Action Reader StarterError (Unit {0})
  client_start last = read_last t last

  unfoldable pub server_start :
      Bool → Str → Str → Outcome StarterError (ℕ × Str) → Action Writer StarterError (ℕ × Str)
  server_start auto_flush identifier version last = do
    res ← write_last t compression identifier version last
    starter (flush t auto_flush)
    pure res

  unfoldable pub send : Deflate → Bool → Config → Bytes → Action Writer PacketError (Unit {0})
  send d auto_flush c message = do
    let level = get_compression c
    bytes ← packet (lift (d.deflate level message))
    write_packet t c bytes
    packet (flush t auto_flush)
    pure tt

  unfoldable pub recv : Deflate → Config → Action Reader PacketError Bytes
  recv d c = do bytes ← read_packet t c; message ← packet (lift (d.inflate bytes)); pure message
