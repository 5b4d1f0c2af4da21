-- ===== src/Raw/Messages.antt =====
-- Messages of the raw protocol.
use tcp_handler.Base.{
  arith, ℕ, zero, suc, ◌^◌, ◌≤◌, ◌<◌, ◌≡◌, ◌≢◌, Bool, List, [], ◌∷◌, ◌++◌, length, ok, err, Action,
  ◌>>=◌, ◌>>◌, pure, ◌⊎◌, inl, inr, sym, ◌∙◌, panic, Outcome, Outcome-cases,
}
use tcp_handler.Config.{Config}
use tcp_handler.Transport.{Bytes, unexpected_eof, Transport, IsLawful, usize_varint_ap}
use tcp_handler.Transport.Emits.{Emits, Emits-bind, Emits-pure}
use tcp_handler.Transport.Reads.{Reads, Reads-bind, Reads-end, Reads-pure}
use tcp_handler.Transport.Limits.{Limits, Limits-end, Limits-pure}
use tcp_handler.Transport.Carries.{Carries, Carries-Reads}
use tcp_handler.Common.Errors.{PacketError, too_large}
use tcp_handler.Common.Packet.Wire.{
  packet_bytes, Emits-write_packet, Reads-read_packet, Starves-read_packet, Limits-write_packet,
  write_packet-above, read_packet-bounded, Answers-read_packet,
}
use tcp_handler.Common.Exchange.{Emits-then_flush, Limits-flush_if}
use tcp_handler.Raw.{send, recv}

-- Messages that keep to the limit.
abbrev pub AllFit : Config → List Bytes → Type 0
AllFit c [] = Unit {0}
AllFit c (m ∷ ms) = (length m ≤ c.max_packet_size) × AllFit c ms

module _ (t : Transport) where
  -- A caller's loop over `send`, up to the first error, and one over `recv`.
  unfoldable pub send_all : Bool → Config → List Bytes → Action t.Writer PacketError (Unit {0})
  send_all af c [] = pure tt
  send_all af c (m ∷ ms) = send t af c m >> send_all af c ms

  unfoldable pub recv_all : Config → ℕ → Action t.Reader PacketError (List Bytes)
  recv_all c zero = pure []
  recv_all c (suc k) = do m ← recv t c; ms ← recv_all c k; pure (m ∷ ms)

module _ {t : Transport} (l : IsLawful t) (af : Bool) (c : Config)
    (valid : c.max_packet_size < 2 ^ 64) where
  abbrev packets_bytes : List Bytes → Bytes
  packets_bytes [] = []
  packets_bytes (m ∷ ms) = packet_bytes l m ++ packets_bytes ms

  pub Emits-send :
      (m : Bytes)
      → length m ≤ c.max_packet_size
      → Emits l (packet_bytes l m) (ok tt) (send t af c m)
  unfolding send
  Emits-send m h =
      Emits-then_flush l PacketError.io af _ (λ _. tt) (Emits-write_packet l c m valid h)

  pub Reads-recv :
      (m : Bytes) → length m ≤ c.max_packet_size → Reads l (packet_bytes l m) (ok m) (recv t c)
  unfolding recv
  Reads-recv m h = Reads-read_packet l c m valid h

  Emits-send_all :
      (ms : List Bytes) → AllFit c ms → Emits l (packets_bytes ms) (ok tt) (send_all t af c ms)
  unfolding send_all
  Emits-send_all [] h = Emits-pure l tt
  Emits-send_all (m ∷ ms) h = Emits-bind l _ _ (Emits-send m h.0) (Emits-send_all ms h.1)

  Reads-recv_all :
      (ms : List Bytes)
      → AllFit c ms
      → Reads l (packets_bytes ms) (ok ms) (recv_all t c (length ms))
  unfolding recv_all
  Reads-recv_all [] h = Reads-pure l []
  Reads-recv_all (m ∷ ms) h =
      Reads-bind l _ _ (Reads-recv m h.0)
        (Reads-end l _ _ (Reads-recv_all ms h.1) (Reads-pure l (m ∷ ms)))

  -- Let the limit be a 64-bit number. A caller's loop sends any messages that keep to the limit to a
  -- healthy writer, and succeeds; as many calls of `recv`, on a reader that gets what was accepted
  -- meanwhile, return those messages in the same order.
  pub recv_all-send_all :
      (ms : List Bytes) {w : t.Writer} {r : t.Reader}
      → AllFit c ms
      → l.Healthy w
      → Carries l w (send_all t af c ms w).1 r
      → ((send_all t af c ms w).0 ≡ ok tt) × ((recv_all t c (length ms) r).0 ≡ ok ms)
  recv_all-send_all ms {w} h hw d =
      let em = Emits-send_all ms h in
      (em.returns w hw, Carries-Reads l em hw d (Reads-recv_all ms h))

module _ {t : Transport} (l : IsLawful t) (af : Bool) (c : Config) where
  pub send-Limits : (m : Bytes) → Limits l (packet_bytes l m) (send t af c m)
  unfolding send
  send-Limits m =
      Limits-end l _ _ (Limits-write_packet l c m)
        (λ _. Limits-end l _ _ (Limits-flush_if l _ af) (λ _. Limits-pure l tt))

  -- Whatever the writer does, a call of `send` makes it accept a part of the packet, from its start;
  -- and all of it, or the call does not succeed.
  pub send_prefix :
      (m : Bytes) (w : t.Writer)
      → (p : Bytes) × (q : Bytes) × (packet_bytes l m ≡ p ++ q)
        × (l.accepted (send t af c m w).1 ≡ l.accepted w ++ p)
        × ((q ≡ []) ⊎ ((send t af c m w).0 ≢ ok tt))
  send_prefix m w =
      let (p, q, split, wrote, complete) = (send-Limits m).within w in
      (
        p,
        q,
        split,
        wrote,
        elim (Outcome-cases (send t af c m w).0) [
          | inl (_, h) ↦ inl (complete tt h)
          | inr (inl (e, h)) ↦ inr (λ g. err-ne-ok (sym h ∙ g))
          | inr (inr h) ↦ inr (λ g. panic-ne-ok (sym h ∙ g))
        ],
      )
    where
      err-ne-ok : {e : PacketError} → ◌≡◌ {A = Outcome PacketError (Unit {0})} (err e) (ok tt) → ⊥
      err-ne-ok h = cc

      panic-ne-ok : ◌≡◌ {A = Outcome PacketError (Unit {0})} panic (ok tt) → ⊥
      panic-ne-ok h = cc

  -- Whatever comes in, a message that `recv` returns is not longer than the limit.
  pub recv_bounded :
      (r : t.Reader) (m : Bytes) → (recv t c r).0 ≡ ok m → length m ≤ c.max_packet_size
  unfolding recv
  recv_bounded r m h = read_packet-bounded l c r m h

  -- Let the limit be a 64-bit number, and a message keep to it. If the stream ends within its packet,
  -- `recv` fails with the error of an unexpected end.
  pub recv_cut :
      (m p q : Bytes) (r : t.Reader)
      → c.max_packet_size < 2 ^ 64
      → length m ≤ c.max_packet_size
      → packet_bytes l m ≡ p ++ q
      → q ≢ []
      → l.pending r ≡ p
      → (recv t c r).0 ≡ err (PacketError.io unexpected_eof)
  unfolding recv
  recv_cut m p q r valid h e ne hp = (Starves-read_packet l c m valid h).fails r p q e ne hp

pub send_too_large :
    (t : Transport) (af : Bool) (c : Config) (m : Bytes) (w : t.Writer)
    → c.max_packet_size < length m
    → send t af c m w ≡ (err (too_large (length m) c.max_packet_size), w)
unfolding send ◌>>=◌
send_too_large t af c m w h = rw (write_packet-above t c m w h)

-- Let a message's length be a 64-bit number above the limit. Then `send` fails with
-- `PacketError::TooLarge`, which tells the length and the limit, and leaves the writer as it is. And
-- where such a length comes in, `recv` fails in the same way, and reads no more than the length.
too_large_refused :
    {t : Transport} (l : IsLawful t) (af : Bool) (c : Config) (m rest : Bytes) (w : t.Writer)
    (r : t.Reader)
    → length m < 2 ^ 64
    → c.max_packet_size < length m
    → l.pending r ≡ l.encode usize_varint_ap (length m) ++ rest
    → (send t af c m w ≡ (err (too_large (length m) c.max_packet_size), w))
      × ((recv t c r).0 ≡ err (too_large (length m) c.max_packet_size))
      × (l.pending (recv t c r).1 ≡ rest)
unfolding recv
too_large_refused {t} l af c m rest w r fits h e =
    let refused = Answers-read_packet l c m (omega arith) fits h in
    (send_too_large t af c m w h, refused.returns r rest e, refused.leaves r rest e)
