-- ===== src/Streams/Compress/Dialogue.antt =====
-- Requests and replies over the handlers of the compress protocol.
use tcp_handler.Base.{
  ◌^◌, ◌≤◌, ◌<◌, ◌≡◌, refl, Bool, length, ok, err, panic, inl, inr, ◌⊎◌, Outcome-cases, ◌>>=◌,
}
use tcp_handler.Config.{Config, get_compression}
use tcp_handler.Transport.{Bytes, IoError, Transport, IsLawful}
use tcp_handler.Common.Packet.Wire.{packet_bytes}
use tcp_handler.Raw
use tcp_handler.Raw.Messages.{send-Limits}
use tcp_handler.Compress
use tcp_handler.Compress.Messages.{Emits-send, Reads-recv}
use tcp_handler.Crypto.{Deflate, IsDeflate}
use tcp_handler.Streams.Dialogue.Grows.{Grown, Grown-refl}
use tcp_handler.Streams.Dialogue.{IsHandler}
use tcp_handler.Streams.Compress.Server
use tcp_handler.Streams.Compress.Client
use tcp_handler.Streams.Compress.Server.{TcpServerHandlerCompress}
use tcp_handler.Streams.Compress.Client.{TcpClientHandlerCompress}

-- A message as it is on the stream.
pub record IsPacket {t : Transport} (l : IsLawful t) (d : Deflate) (config : Config) (m x : Bytes)
    : Type 0 where
  pub coded : Bytes
  pub deflated : d.deflate config.compression m ≡ ok coded
  pub fits : length coded ≤ config.max_packet_size
  pub packet : x ≡ packet_bytes l coded

abbrev pub Sealed :
    {t : Transport}
    → IsLawful t
    → Deflate
    → Config
    → Unit {0}
    → Unit {0}
    → Bytes
    → Bytes
    → Unit {0}
    → Type 0
Sealed l d config _ _ m x _ = IsPacket l d config m x

module _ {t : Transport} (l : IsLawful t) (d : Deflate) (af : Bool) (config : Config) where
  send-deflated :
      (m x : Bytes) (w : t.Writer)
      → d.deflate config.compression m ≡ ok x
      → Compress.send t d af config m w ≡ Raw.send t af config x w
  unfolding Compress.send Raw.send get_compression ◌>>=◌
  send-deflated m x w h = rw h

  send-undeflated :
      (m : Bytes) (w : t.Writer)
      → ((e : IoError) × (d.deflate config.compression m ≡ err e))
        ⊎ (d.deflate config.compression m ≡ panic)
      → (Compress.send t d af config m w).1 ≡ w
  unfolding Compress.send get_compression ◌>>=◌
  send-undeflated m w (inl (e, h)) = rw h refl
  send-undeflated m w (inr h) = rw h refl

  pub send-Grown : (m : Bytes) (w : t.Writer) → Grown l w (Compress.send t d af config m w).1
  send-Grown m w = elim (Outcome-cases (d.deflate config.compression m)) [
    | inl (x, h) ↦
        let (p, q, split, wrote, complete) = (send-Limits l af config x).within w in
        rw (send-deflated m x w h) (p, wrote)
    | inr h ↦ rw (send-undeflated m w h) (Grown-refl l w)
  ]

module _ {t : Transport} (l : IsLawful t) {d : Deflate} (id : IsDeflate d) (af : Bool)
    (config : Config) (valid : config.max_packet_size < 2 ^ 64) where
  unfoldable pub client-IsHandler :
      IsHandler l (Client.handler t d af config) (Unit {0}) (Sealed l d config)
  unfolding Client.handler Client.send Client.recv
  client-IsHandler = record {
    writer = λ s. s.writer;
    reader = λ s. s.reader;
    Ready = λ _ _. Unit {0};
    sends = λ {m = m} {s = s} p ready h.
        let em = Emits-send l id af config valid m p.coded p.deflated p.fits in
        (em.returns s.writer h, tt, em.stays s.writer h, rw p.packet (em.appends s.writer h));
    receives = λ {m = m} {s = s} rest p ready e.
        let r = Reads-recv l id af config valid m p.coded p.deflated p.fits in
        (r.returns s.reader rest (rw p.packet at e), tt, r.leaves s.reader rest (rw p.packet at e));
    send_keeps = λ _ m s. refl;
    recv_keeps = λ s. refl;
    send_grows = λ _ m s. send-Grown l d af config m s.writer;
  }

  unfoldable pub server-IsHandler :
      IsHandler l (Server.handler t d af config) (Unit {0}) (Sealed l d config)
  unfolding Server.handler Server.send Server.recv
  server-IsHandler = record {
    writer = λ s. s.writer;
    reader = λ s. s.reader;
    Ready = λ _ _. Unit {0};
    sends = λ {m = m} {s = s} p ready h.
        let em = Emits-send l id af config valid m p.coded p.deflated p.fits in
        (em.returns s.writer h, tt, em.stays s.writer h, rw p.packet (em.appends s.writer h));
    receives = λ {m = m} {s = s} rest p ready e.
        let r = Reads-recv l id af config valid m p.coded p.deflated p.fits in
        (r.returns s.reader rest (rw p.packet at e), tt, r.leaves s.reader rest (rw p.packet at e));
    send_keeps = λ _ m s. refl;
    recv_keeps = λ s. refl;
    send_grows = λ _ m s. send-Grown l d af config m s.writer;
  }
