-- ===== src/Common/Tasks/Linear.antt =====
-- What two tasks do at one end, calls made one after the other do as well: each takes place when it
-- gives up the lock.
use tcp_handler.Base.{◌≡◌, refl, sym, ap, ◌∙◌, List, [], ◌∷◌, ◌++◌, false, Outcome, ok}
use tcp_handler.Transport.{Bytes}
use tcp_handler.Crypto.{Crypto}
use tcp_handler.Common.Errors.{PacketError}
use tcp_handler.Common.Cipher.{Cipher, get}
use tcp_handler.Common.Tasks.{
  Failure, failed, Sent, End, log_sent, finish_send, finish_recv, Sequential, after_send,
  after_recv, Calls, then_send, then_recv, Parts,
}
use tcp_handler.Common.Tasks.Closures.{finish_send-failed, finish_recv-failed}
use tcp_handler.Common.Tasks.Interleaved.{
  Sending, no_send, sealing, writing, Receiving, no_recv, unopened, opening, sender_holds,
  receiver_holds,
}

-- The closures on the mutex, against functions on what an end keeps.
pub record IsLocked {R W K : Type 0} {c : Crypto} (p : Parts R W c) (q : Sequential R W K)
    (mutex : K → Cipher c) : Type 0 where
  pub seal_mutex :
      (new_nonce m : Bytes) (k : K)
      → p.seal new_nonce m (mutex k) ≡ ((q.seal new_nonce m k).0, mutex (q.seal new_nonce m k).1)
  pub unseal_mutex :
      (x : Bytes) (k : K) → p.unseal x (mutex k) ≡ ((q.unseal x k).0, mutex (q.unseal x k).1)
  pub same_put : q.put ≡ p.put
  pub same_fetch : q.fetch ≡ p.fetch

module _ {R W K : Type 0} {c : Crypto} (p : Parts R W c) (q : Sequential R W K)
    (mutex : K → Cipher c) where
  -- The mutex here, and what is kept before the call that holds the lock.
  abbrev pub Key : Sending c → Receiving c → Cipher c → Cipher c → Type 0
  Key no_send no_recv k k' = k ≡ k'
  Key no_send (unopened x) k k' = k ≡ k'
  Key no_send (opening x inner) k k' = get (k') ≡ (ok inner, k)
  Key (sealing new_nonce m plain inner) no_recv k k' =
      (p.prepare new_nonce m ≡ ok plain) × (get (k') ≡ (ok inner, k))
  Key (sealing new_nonce m plain inner) (unopened x) k k' =
      (p.prepare new_nonce m ≡ ok plain) × (get (k') ≡ (ok inner, k))
  Key (sealing new_nonce m plain inner) (opening x inner') k k' = ⊥
  Key (writing new_nonce m x) no_recv k k' = k ≡ k'
  Key (writing new_nonce m x) (unopened y) k k' = k ≡ k'
  Key (writing new_nonce m x) (opening y inner) k k' = get (k') ≡ (ok inner, k)

  -- The writer and the calls of `send`, here and with the packet written that is sealed.
  abbrev pub Ahead : Sending c → W × List Sent → W × List Sent → Type 0
  Ahead no_send (w, l) (w', l') = (w' ≡ w) × (l' ≡ l)
  Ahead (sealing new_nonce m plain inner) (w, l) (w', l') = (w' ≡ w) × (l' ≡ l)
  Ahead (writing new_nonce m x) (w, l) (w', l') =
      (w' ≡ (p.put x w).1)
      × (l' ≡ l ++ record { new_nonce = new_nonce; message = m; result = (p.put x w).0 } ∷ [])

  -- The reader here, and with the packet unread that is read.
  abbrev pub Behind : Receiving c → R → R → Type 0
  Behind no_recv r r' = r' ≡ r
  Behind (unopened x) r r' = p.fetch r' ≡ (ok x, r)
  Behind (opening x inner) r r' = p.fetch r' ≡ (ok x, r)

  pub record Linear (e : End R W K) (a : End R W (Cipher c)) (s : Sending c) (r : Receiving c)
      : Type 0 where
    pub atomic : End R W K
    pub calls : Calls q e atomic
    pub key : Key s r a.cipher (mutex atomic.cipher)
    pub ahead : Ahead s (a.writer, a.sent) (atomic.writer, atomic.sent)
    pub behind : Behind r a.reader atomic.reader
    pub same_got : atomic.got ≡ a.got

  -- While neither holds the lock.
  pub free :
      (s : Sending c) (r : Receiving c) (k k' : Cipher c)
      → sender_holds s ≡ false
      → receiver_holds r ≡ false
      → Key s r k k'
      → k ≡ k'
  free no_send no_recv k k' hs hr h = h
  free no_send (unopened x) k k' hs hr h = h
  free no_send (opening x inner) k k' hs hr h = cc
  free (sealing n m plain inner) r k k' hs hr h = cc
  free (writing n m x) no_recv k k' hs hr h = h
  free (writing n m x) (unopened y) k k' hs hr h = h
  free (writing n m x) (opening y inner) k k' hs hr h = cc

  pub to_free :
      (s : Sending c) (r : Receiving c) (k k' : Cipher c)
      → sender_holds s ≡ false
      → receiver_holds r ≡ false
      → k ≡ k'
      → Key s r k k'
  to_free no_send no_recv k k' hs hr h = h
  to_free no_send (unopened x) k k' hs hr h = h
  to_free no_send (opening x inner) k k' hs hr h = cc
  to_free (sealing n m plain inner) r k k' hs hr h = cc
  to_free (writing n m x) no_recv k k' hs hr h = h
  to_free (writing n m x) (unopened y) k k' hs hr h = h
  to_free (writing n m x) (opening y inner) k k' hs hr h = cc

  module _ (il : IsLocked p q mutex) {e : End R W K} {a : End R W (Cipher c)} where
    -- A call of `send` whose closure fails takes place at once.
    pub send_failed :
        {s : Sending c} {r : Receiving c} (new_nonce m : Bytes) (f : Failure) (k k' : Cipher c)
        (l : Linear e a s r)
        → (l.atomic.writer ≡ a.writer) × (l.atomic.sent ≡ a.sent)
        → p.seal new_nonce m (mutex l.atomic.cipher) ≡ (failed f, k)
        → Key no_send r k' k
        → Linear e (record a { cipher = k'; sent = log_sent new_nonce m (failed f) a }) no_send r
    send_failed new_nonce m f k k' l (w, t) u h =
        let v = sym (il.seal_mutex new_nonce m l.atomic.cipher) ∙ u in
        let fin =
          ap (finish_send q.put l.atomic.writer) (ap (λ o. o.0) v)
          ∙ finish_send-failed q.put l.atomic.writer f in
        record {
          atomic = after_send q new_nonce m l.atomic;
          calls = then_send new_nonce m l.calls;
          key = rw (sym (ap (λ o. o.1) v)) at h;
          ahead = (ap (λ o. o.1) fin ∙ w, rw (ap (λ o. o.0) fin, t) refl);
          behind = l.behind;
          same_got = l.same_got;
        }

    -- One that seals a packet takes place then.
    pub send_sealed :
        {s : Sending c} {r : Receiving c} (new_nonce m x : Bytes) (k : Cipher c)
        (l : Linear e a s r)
        → (l.atomic.writer ≡ a.writer) × (l.atomic.sent ≡ a.sent)
        → receiver_holds r ≡ false
        → p.seal new_nonce m (mutex l.atomic.cipher) ≡ (ok x, k)
        → Linear e (record a { cipher = k }) (writing new_nonce m x) r
    send_sealed {r = r} new_nonce m x k l (w, t) h u =
        let v = sym (il.seal_mutex new_nonce m l.atomic.cipher) ∙ u in
        let put_same : q.put x l.atomic.writer ≡ p.put x a.writer = rw (il.same_put, w) refl in
        let fin = ap (finish_send q.put l.atomic.writer) (ap (λ o. o.0) v) ∙ put_same in
        record {
          atomic = after_send q new_nonce m l.atomic;
          calls = then_send new_nonce m l.calls;
          key = to_free (writing new_nonce m x) r k _ refl h (sym (ap (λ o. o.1) v));
          ahead = (ap (λ o. o.1) fin, rw (ap (λ o. o.0) fin, t) refl);
          behind = l.behind;
          same_got = l.same_got;
        }

    -- A call of `recv` that opens its packet, or cannot, takes place then.
    pub recv_opened :
        {s : Sending c} (x : Bytes) (o : Outcome PacketError Bytes) (k : Cipher c) (r : Receiving c)
        (l : Linear e a s r)
        → p.fetch l.atomic.reader ≡ (ok x, a.reader)
        → sender_holds s ≡ false
        → p.unseal x (mutex l.atomic.cipher) ≡ (o, k)
        → Linear e (record a { cipher = k; got = a.got ++ o ∷ [] }) s no_recv
    recv_opened {s = s} x o k r l g h u =
        let v = sym (il.unseal_mutex x l.atomic.cipher) ∙ u in
        let fetched = ap (λ f. f l.atomic.reader) il.same_fetch ∙ g in
        let fin = ap (finish_recv q.unseal l.atomic.cipher) (ap (λ o. o.0) fetched) in
        record {
          atomic = after_recv q l.atomic;
          calls = then_recv l.calls;
          key =
              to_free s no_recv k _ h refl (sym (ap (λ o. o.1) v) ∙ sym (ap (λ o. mutex o.1) fin));
          ahead = l.ahead;
          behind = ap (λ o. o.1) fetched;
          same_got = rw (ap (λ o. o.0) fin, ap (λ o. o.0) v, l.same_got) refl;
        }

    pub recv_failed :
        {s : Sending c} (f : Failure) (r : R) (l : Linear e a s no_recv)
        → p.fetch a.reader ≡ (failed f, r)
        → Linear e (record a { reader = r; got = a.got ++ failed f ∷ [] }) s no_recv
    recv_failed {s = s} f r l g =
        let fetched = ap (λ f. f l.atomic.reader) il.same_fetch ∙ rw (← l.behind) at g in
        let fin =
          ap (finish_recv q.unseal l.atomic.cipher) (ap (λ o. o.0) fetched)
          ∙ finish_recv-failed q.unseal l.atomic.cipher f in
        record {
          atomic = after_recv q l.atomic;
          calls = then_recv l.calls;
          key = rw (ap (λ o. o.1) fin) l.key;
          ahead = l.ahead;
          behind = ap (λ o. o.1) fetched;
          same_got = rw (ap (λ o. o.0) fin, l.same_got) refl;
        }
