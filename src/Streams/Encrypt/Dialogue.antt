-- ===== src/Streams/Encrypt/Dialogue.antt =====
-- Requests and replies over the handlers of the encrypt protocol.
use tcp_handler.Base.{
  ◌^◌, ◌≤◌, ◌<◌, ◌≡◌, refl, ap, ◌++◌, some, Bool, length, ok, err, panic, inl, inr, ◌⊎◌,
  Outcome-cases, ◌>>=◌,
}
use tcp_handler.Config.{Config}
use tcp_handler.Transport.{Bytes, Transport, IsLawful}
use tcp_handler.Crypto.{Crypto, IsCrypto}
use tcp_handler.Common.Errors.{PacketError}
use tcp_handler.Common.Cipher.{Cipher}
use tcp_handler.Common.Channel.{holding}
use tcp_handler.Common.Packet.Wire.{packet_bytes}
use tcp_handler.Raw.Messages.{Emits-send, Reads-recv, send-Limits}
use tcp_handler.Encrypt
use tcp_handler.Encrypt.Sealing.{seal-some, unseal-some}
use tcp_handler.Encrypt.Messages.{send-sealed, recv-opened}
use tcp_handler.Streams.Dialogue.{IsHandler}
use tcp_handler.Streams.Dialogue.Grows.{Grown, Grown-refl}
use tcp_handler.Streams.Encrypt.Server
use tcp_handler.Streams.Encrypt.Client
use tcp_handler.Streams.Encrypt.Server.{TcpServerHandlerEncrypt}
use tcp_handler.Streams.Encrypt.Client.{TcpClientHandlerEncrypt}

-- A message as it is on the stream, sealed under the key `k` and leaving the key `k'`.
pub record Sealed {t : Transport} (l : IsLawful t) (c : Crypto) (config : Config)
    (k : c.Aes × Bytes) (new_nonce m x : Bytes) (k' : c.Aes × Bytes) : Type 0 where
  pub sealed : Bytes
  pub encrypted : c.encrypt_in_place k.0 k.1 (new_nonce ++ m) ≡ some sealed
  pub nonce_len : length new_nonce ≡ 12
  pub fits : length sealed ≤ config.max_packet_size
  pub packet : x ≡ packet_bytes l sealed
  pub next : k' ≡ (k.0, new_nonce)

module _ {t : Transport} (l : IsLawful t) {c : Crypto} (af : Bool) (config : Config) where
  send-unsealed :
      (new_nonce m : Bytes) (w : t.Writer) (k : Cipher c)
      → ((e : PacketError) × ((Encrypt.seal t c new_nonce m k).0 ≡ err e))
        ⊎ ((Encrypt.seal t c new_nonce m k).0 ≡ panic)
      → (Encrypt.send t c af config new_nonce m (w, k)).1.0 ≡ w
  unfolding Encrypt.send ◌>>=◌
  send-unsealed new_nonce m w k (inl (e, h)) = rw h refl
  send-unsealed new_nonce m w k (inr h) = rw h refl

  pub send-Grown :
      (new_nonce m : Bytes) (w : t.Writer) (k : Cipher c)
      → Grown l w (Encrypt.send t c af config new_nonce m (w, k)).1.0
  send-Grown new_nonce m w k = elim (Outcome-cases (Encrypt.seal t c new_nonce m k).0) [
    | inl (x, h) ↦
        let (p, q, split, wrote, complete) = (send-Limits l af config x).within w in
        let sealed =
          send-sealed t af config new_nonce m x w k (Encrypt.seal t c new_nonce m k).1
            (ap (λ o. (o, (Encrypt.seal t c new_nonce m k).1)) h) in
        rw sealed (p, wrote)
    | inr h ↦ rw (send-unsealed new_nonce m w k h) (Grown-refl l w)
  ]

module _ {t : Transport} (l : IsLawful t) {c : Crypto} (ic : IsCrypto c) (af : Bool)
    (config : Config) (valid : config.max_packet_size < 2 ^ 64) {k k' : c.Aes × Bytes}
    {new_nonce m x : Bytes} (p : Sealed l c config k new_nonce m x k') where
  pub sends :
      (w : t.Writer)
      → l.Healthy w
      → let r = Encrypt.send t c af config new_nonce m (w, holding k) in
        (r.0 ≡ ok tt)
        × (r.1.1 ≡ holding k')
        × l.Healthy r.1.0
        × (l.accepted r.1.0 ≡ l.accepted w ++ x)
  sends w h =
      let em = Emits-send l af config valid p.sealed p.fits in
      let s =
        send-sealed t {c = c} af config new_nonce m p.sealed w _ _
          (seal-some t k.0 k.1 new_nonce m p.sealed p.encrypted) in
      rw (s, p.next, p.packet) (em.returns w h, refl, em.stays w h, em.appends w h)

  pub receives :
      (rest : Bytes) (r : t.Reader)
      → l.pending r ≡ x ++ rest
      → let o = Encrypt.recv t c config (r, holding k) in
        (o.0 ≡ ok m) × (o.1.1 ≡ holding k') × (l.pending o.1.0 ≡ rest)
  receives rest r e =
      let rd = Reads-recv l af config valid p.sealed p.fits in
      let e' = rw p.packet at e in
      let o = recv-opened t {c = c} af config p.sealed m r _ _ (rd.returns r rest e') (
        unseal-some t k.0 k.1 new_nonce m p.sealed p.nonce_len
          (ic.decrypt-encrypt k.0 k.1 _ p.sealed p.encrypted)) in
      rw (o, p.next) (refl, refl, rd.leaves r rest e')

module _ {t : Transport} (l : IsLawful t) {c : Crypto} (ic : IsCrypto c) (af : Bool)
    (config : Config) (valid : config.max_packet_size < 2 ^ 64) where
  unfoldable pub client-IsHandler :
      IsHandler l (Client.handler t c af config) (c.Aes × Bytes) (Sealed l c config)
  unfolding Client.handler Client.send Client.recv
  client-IsHandler = record {
    writer = λ s. s.writer;
    reader = λ s. s.reader;
    Ready = λ k s. s.cipher ≡ holding k;
    sends = λ {s = s} p ready h. rw ready (sends l ic af config valid p s.writer h);
    receives = λ {s = s} rest p ready e. rw ready (receives l ic af config valid p rest s.reader e);
    send_keeps = λ d m s. refl;
    recv_keeps = λ s. refl;
    send_grows = λ d m s. send-Grown l af config d m s.writer s.cipher;
  }

  unfoldable pub server-IsHandler :
      IsHandler l (Server.handler t c af config) (c.Aes × Bytes) (Sealed l c config)
  unfolding Server.handler Server.send Server.recv
  server-IsHandler = record {
    writer = λ s. s.writer;
    reader = λ s. s.reader;
    Ready = λ k s. s.cipher ≡ holding k;
    sends = λ {s = s} p ready h. rw ready (sends l ic af config valid p s.writer h);
    receives = λ {s = s} rest p ready e. rw ready (receives l ic af config valid p rest s.reader e);
    send_keeps = λ d m s. refl;
    recv_keeps = λ s. refl;
    send_grows = λ d m s. send-Grown l af config d m s.writer s.cipher;
  }
