-- ===== src/Streams/Raw/Dialogue.antt =====
-- Requests and replies over the handlers of the raw protocol.
use tcp_handler.Base.{◌^◌, ◌≤◌, ◌<◌, ◌≡◌, refl, Bool, length}
use tcp_handler.Config.{Config}
use tcp_handler.Transport.{Bytes, Transport, IsLawful}
use tcp_handler.Common.Packet.Wire.{packet_bytes}
use tcp_handler.Raw.Messages.{Emits-send, Reads-recv, send-Limits}
use tcp_handler.Streams.Dialogue.{IsHandler}
use tcp_handler.Streams.Raw.Server
use tcp_handler.Streams.Raw.Client
use tcp_handler.Streams.Raw.Server.{TcpServerHandlerRaw}
use tcp_handler.Streams.Raw.Client.{TcpClientHandlerRaw}

-- A message as it is on the stream.
pub record IsPacket {t : Transport} (l : IsLawful t) (config : Config) (m x : Bytes) : Type 0 where
  pub fits : length m ≤ config.max_packet_size
  pub packet : x ≡ packet_bytes l m

abbrev pub Sealed :
    {t : Transport} → IsLawful t → Config → Unit {0} → Unit {0} → Bytes → Bytes → Unit {0} → Type 0
Sealed l config _ _ m x _ = IsPacket l config m x

module _ {t : Transport} (l : IsLawful t) (af : Bool) (config : Config)
    (valid : config.max_packet_size < 2 ^ 64) where
  unfoldable pub client-IsHandler :
      IsHandler l (Client.handler t af config) (Unit {0}) (Sealed l config)
  unfolding Client.handler Client.send Client.recv
  client-IsHandler = record {
    writer = λ s. s.writer;
    reader = λ s. s.reader;
    Ready = λ _ _. Unit {0};
    sends = λ {m = m} {s = s} p ready h.
        let em = Emits-send l af config valid m p.fits in
        (em.returns s.writer h, tt, em.stays s.writer h, rw p.packet (em.appends s.writer h));
    receives = λ {m = m} {s = s} rest p ready e.
        let r = Reads-recv l af config valid m p.fits in
        (r.returns s.reader rest (rw p.packet at e), tt, r.leaves s.reader rest (rw p.packet at e));
    send_keeps = λ _ m s. refl;
    recv_keeps = λ s. refl;
    send_grows = λ _ m s.
        let (p, q, split, wrote, complete) = (send-Limits l af config m).within s.writer in
        (p, wrote);
  }

  unfoldable pub server-IsHandler :
      IsHandler l (Server.handler t af config) (Unit {0}) (Sealed l config)
  unfolding Server.handler Server.send Server.recv
  server-IsHandler = record {
    writer = λ s. s.writer;
    reader = λ s. s.reader;
    Ready = λ _ _. Unit {0};
    sends = λ {m = m} {s = s} p ready h.
        let em = Emits-send l af config valid m p.fits in
        (em.returns s.writer h, tt, em.stays s.writer h, rw p.packet (em.appends s.writer h));
    receives = λ {m = m} {s = s} rest p ready e.
        let r = Reads-recv l af config valid m p.fits in
        (r.returns s.reader rest (rw p.packet at e), tt, r.leaves s.reader rest (rw p.packet at e));
    send_keeps = λ _ m s. refl;
    recv_keeps = λ s. refl;
    send_grows = λ _ m s.
        let (p, q, split, wrote, complete) = (send-Limits l af config m).within s.writer in
        (p, wrote);
  }
