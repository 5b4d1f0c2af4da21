-- ===== src/Compress/Messages.antt =====
-- Messages of the compress protocol: a deflated message is sent as the raw protocol does.
use tcp_handler.Base.{◌^◌, ◌≤◌, ◌<◌, ◌≡◌, Bool, length, ok}
use tcp_handler.Config.{Config, get_compression}
use tcp_handler.Transport.{Bytes, Transport, IsLawful}
use tcp_handler.Transport.Emits.{Emits, Emits-bind, Emits-lift}
use tcp_handler.Transport.Reads.{Reads, Reads-end, Reads-lift, Reads-pure}
use tcp_handler.Transport.Carries.{Carries, Carries-Reads, Carries-rest}
use tcp_handler.Crypto.{Deflate, IsDeflate}
use tcp_handler.Common.Errors.{PacketError}
use tcp_handler.Common.Packet.Wire.{packet_bytes, Emits-write_packet, Reads-read_packet}
use tcp_handler.Common.Exchange.{Emits-then_flush}
use tcp_handler.Compress.{send, recv}

module _ {t : Transport} (l : IsLawful t) {d : Deflate} (id : IsDeflate d) (af : Bool) (c : Config)
    (valid : c.max_packet_size < 2 ^ 64) (m x : Bytes) (deflated : d.deflate c.compression m ≡ ok x)
    (fits : length x ≤ c.max_packet_size) where
  pub Emits-send : Emits l (packet_bytes l x) (ok tt) (send t d af c m)
  unfolding send get_compression
  Emits-send = rw deflated (
      Emits-bind l _ _ (Emits-lift l (ok x))
        (Emits-then_flush l PacketError.io af _ (λ _. tt) (Emits-write_packet l c x valid fits)))

  pub Reads-recv : Reads l (packet_bytes l x) (ok m) (recv t d c)
  unfolding recv
  Reads-recv = Reads-end l _ _ (Reads-read_packet l c x valid fits) (
      rw (id.inflate-deflate c.compression m x deflated)
        (Reads-end l _ _ (Reads-lift l (ok m)) (Reads-pure l m)))

  -- Let the limit be a 64-bit number, and let the message, deflated at the configured level, keep
  -- to it. Then a `send` to a healthy writer succeeds, the `recv` of a reader that gets what was
  -- accepted meanwhile returns the message, and what follows it stays unread.
  pub recv-send_compressed :
      {w : t.Writer} {r : t.Reader} (h : l.Healthy w)
      (carried : Carries l w (send t d af c m w).1 r)
      → ((send t d af c m w).0 ≡ ok tt)
        × ((recv t d c r).0 ≡ ok m)
        × (l.pending (recv t d c r).1 ≡ carried.rest)
  recv-send_compressed {w} h carried = (
    Emits-send.returns w h,
    Carries-Reads l Emits-send h carried Reads-recv,
    Carries-rest l Emits-send h carried Reads-recv,
  )
