-- ===== src/Streams/CompressEncrypt/Dialogue.antt =====
-- Requests and replies over the handlers of the compress_encrypt protocol.
use tcp_handler.Base.{
  ◌^◌, ◌≤◌, ◌<◌, ◌≡◌, refl, ap, ◌++◌, Bool, length, ok, err, panic, inl, inr, ◌⊎◌, Outcome-cases,
  ◌>>=◌,
}
use tcp_handler.Config.{Config, get_compression}
use tcp_handler.Transport.{Bytes, Transport, IsLawful}
use tcp_handler.Crypto.{Crypto, IsCrypto, Deflate, IsDeflate}
use tcp_handler.Common.Errors.{PacketError}
use tcp_handler.Common.Cipher.{Cipher}
use tcp_handler.Common.Channel.{holding}
use tcp_handler.Common.Packet.Wire.{packet_bytes}
use tcp_handler.Raw.Messages.{Emits-send, Reads-recv, send-Limits}
use tcp_handler.CompressEncrypt
use tcp_handler.CompressEncrypt.Sealing.{seal-Sealed, unseal-Sealed}
use tcp_handler.CompressEncrypt.Sealing
use tcp_handler.CompressEncrypt.Messages.{send-sealed, recv-opened}
use tcp_handler.Streams.Dialogue.{IsHandler}
use tcp_handler.Streams.Dialogue.Grows.{Grown, Grown-refl}
use tcp_handler.Streams.CompressEncrypt.Server
use tcp_handler.Streams.CompressEncrypt.Client
use tcp_handler.Streams.CompressEncrypt.Server.{TcpServerHandlerCompressEncrypt}
use tcp_handler.Streams.CompressEncrypt.Client.{TcpClientHandlerCompressEncrypt}

-- A message as it is on the stream, sealed under the key `k` and leaving the key `k'`.
pub record Sealed {t : Transport} (l : IsLawful t) (c : Crypto) (d : Deflate) (config : Config)
    (k : c.Aes × Bytes) (new_nonce m x : Bytes) (k' : c.Aes × Bytes) : Type 0 where
  pub sealed : Bytes
  pub steps : Sealing.Sealed c d config.compression k.0 k.1 new_nonce m sealed
  pub nonce_len : length new_nonce ≡ 12
  pub fits : length sealed ≤ config.max_packet_size
  pub packet : x ≡ packet_bytes l sealed
  pub next : k' ≡ (k.0, new_nonce)

module _ {t : Transport} (l : IsLawful t) {c : Crypto} (d : Deflate) (af : Bool)
    (config : Config) where
  send-unsealed :
      (new_nonce m : Bytes) (w : t.Writer) (k : Cipher c)
      → ((e : PacketError) × ((CompressEncrypt.seal t c d config.compression new_nonce m k).0
            ≡ err e))
        ⊎ ((CompressEncrypt.seal t c d config.compression new_nonce m k).0 ≡ panic)
      → (CompressEncrypt.send t c d af config new_nonce m (w, k)).1.0 ≡ w
  unfolding CompressEncrypt.send get_compression ◌>>=◌
  send-unsealed new_nonce m w k (inl (e, h)) = rw h refl
  send-unsealed new_nonce m w k (inr h) = rw h refl

  pub send-Grown :
      (new_nonce m : Bytes) (w : t.Writer) (k : Cipher c)
      → Grown l w (CompressEncrypt.send t c d af config new_nonce m (w, k)).1.0
  send-Grown new_nonce m w k =
      elim (Outcome-cases (CompressEncrypt.seal t c d config.compression new_nonce m k).0) [
        | inl (x, h) ↦
            let (p, q, split, wrote, complete) = (send-Limits l af config x).within w in
            let sealed =
              send-sealed t d af config new_nonce m x w k
                (CompressEncrypt.seal t c d config.compression new_nonce m k).1
                (ap (λ o. (o, (CompressEncrypt.seal t c d config.compression new_nonce m k).1))
                  h) in
            rw sealed (p, wrote)
        | inr h ↦ rw (send-unsealed new_nonce m w k h) (Grown-refl l w)
      ]

module _ {t : Transport} (l : IsLawful t) {c : Crypto} (ic : IsCrypto c) {d : Deflate}
    (id : IsDeflate d) (af : Bool) (config : Config) (valid : config.max_packet_size < 2 ^ 64)
    {k k' : c.Aes × Bytes} {new_nonce m x : Bytes}
    (p : Sealed l c d config k new_nonce m x k') where
  pub sends :
      (w : t.Writer)
      → l.Healthy w
      → let r = CompressEncrypt.send t c d af config new_nonce m (w, holding k) in
        (r.0 ≡ ok tt)
        × (r.1.1 ≡ holding k')
        × l.Healthy r.1.0
        × (l.accepted r.1.0 ≡ l.accepted w ++ x)
  sends w h =
      let em = Emits-send l af config valid p.sealed p.fits in
      let s =
        send-sealed t {c = c} d af config new_nonce m p.sealed w _ _
          (seal-Sealed t {c = c} d config.compression k.0 k.1 new_nonce m p.sealed p.steps) in
      rw (s, p.next, p.packet) (em.returns w h, refl, em.stays w h, em.appends w h)

  pub receives :
      (rest : Bytes) (r : t.Reader)
      → l.pending r ≡ x ++ rest
      → let o = CompressEncrypt.recv t c d config (r, holding k) in
        (o.0 ≡ ok m) × (o.1.1 ≡ holding k') × (l.pending o.1.0 ≡ rest)
  receives rest r e =
      let rd = Reads-recv l af config valid p.sealed p.fits in
      let e' = rw p.packet at e in
      let o = recv-opened t {c = c} d af config p.sealed m r _ _ (rd.returns r rest e') (
        unseal-Sealed t ic id config.compression k.0 k.1 new_nonce m p.sealed p.nonce_len
          p.steps) in
      rw (o, p.next) (refl, refl, rd.leaves r rest e')

module _ {t : Transport} (l : IsLawful t) {c : Crypto} (ic : IsCrypto c) {d : Deflate}
    (id : IsDeflate d) (af : Bool) (config : Config) (valid : config.max_packet_size < 2 ^ 64) where
  unfoldable pub client-IsHandler :
      IsHandler l (Client.handler t c d af config) (c.Aes × Bytes) (Sealed l c d config)
  unfolding Client.handler Client.send Client.recv
  client-IsHandler = record {
    writer = λ s. s.writer;
    reader = λ s. s.reader;
    Ready = λ k s. s.cipher ≡ holding k;
    sends = λ {s = s} p ready h. rw ready (sends l ic id af config valid p s.writer h);
    receives =
        λ {s = s} rest p ready e. rw ready (receives l ic id af config valid p rest s.reader e);
    send_keeps = λ new_nonce m s. refl;
    recv_keeps = λ s. refl;
    send_grows = λ new_nonce m s. send-Grown l d af config new_nonce m s.writer s.cipher;
  }

  unfoldable pub server-IsHandler :
      IsHandler l (Server.handler t c d af config) (c.Aes × Bytes) (Sealed l c d config)
  unfolding Server.handler Server.send Server.recv
  server-IsHandler = record {
    writer = λ s. s.writer;
    reader = λ s. s.reader;
    Ready = λ k s. s.cipher ≡ holding k;
    sends = λ {s = s} p ready h. rw ready (sends l ic id af config valid p s.writer h);
    receives =
        λ {s = s} rest p ready e. rw ready (receives l ic id af config valid p rest s.reader e);
    send_keeps = λ new_nonce m s. refl;
    recv_keeps = λ s. refl;
    send_grows = λ new_nonce m s. send-Grown l d af config new_nonce m s.writer s.cipher;
  }
