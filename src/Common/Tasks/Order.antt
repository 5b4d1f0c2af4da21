-- ===== src/Common/Tasks/Order.antt =====
-- The calls of any run, in the order in which they give up the lock.
use tcp_handler.Base.{◌≡◌, refl, ◌∙◌, false, ok}
use tcp_handler.Transport.{Bytes}
use tcp_handler.Crypto.{Crypto}
use tcp_handler.Common.Cipher.{InnerAesCipher, Cipher, get}
use tcp_handler.Common.Tasks.{failed, End, Sequential, Calls, no_calls, Parts}
use tcp_handler.Common.Tasks.Closures.{
  seal_early, seal_no_cipher, seal_under, unseal_no_cipher, unseal_under,
}
use tcp_handler.Common.Tasks.Linear.{
  IsLocked, Key, Linear, free, send_failed, send_sealed, recv_opened, recv_failed, to_free,
}
use tcp_handler.Common.Tasks.Interleaved.{
  Sending, no_send, sealing, writing, Receiving, no_recv, unopened, opening, sender_holds,
  receiver_holds, Runs, idle, unprepared, locks_send, no_cipher_send, seals, seals_nothing, writes,
  fetches, fetches_nothing, locks_recv, no_cipher_recv, opens,
}

-- The end that has a mutex for what it keeps.
abbrev pub with_mutex :
    {R W K : Type 0} {c : Crypto} → (K → Cipher c) → End R W K → End R W (Cipher c)
with_mutex mutex e = record {
  reader = e.reader;
  writer = e.writer;
  cipher = mutex e.cipher;
  sent = e.sent;
  got = e.got;
}

module _ {R W K : Type 0} {c : Crypto} (p : Parts R W c) (q : Sequential R W K)
    (mutex : K → Cipher c) where
  module _ (new_nonce m plain : Bytes) (inner : InnerAesCipher c) (k k' : Cipher c) where
    to_sealing :
        (r : Receiving c)
        → receiver_holds r ≡ false
        → p.prepare new_nonce m ≡ ok plain
        → get k' ≡ (ok inner, k)
        → Key p q mutex (sealing new_nonce m plain inner) r k k'
    to_sealing no_recv h e g = (e, g)
    to_sealing (unopened x) h e g = (e, g)
    to_sealing (opening x inner') h e g = cc

    from_sealing :
        (r : Receiving c)
        → Key p q mutex (sealing new_nonce m plain inner) r k k'
        → (receiver_holds r ≡ false) × (p.prepare new_nonce m ≡ ok plain) × (get k' ≡ (ok inner, k))
    from_sealing no_recv (e, g) = (refl, e, g)
    from_sealing (unopened x) (e, g) = (refl, e, g)
    from_sealing (opening x inner') h = absurd h

  module _ (new_nonce m : Bytes) (k k' : Cipher c) where
    from_writing :
        (x : Bytes) (r : Receiving c)
        → Key p q mutex (writing new_nonce m x) r k k'
        → Key p q mutex no_send r k k'
    from_writing x no_recv h = h
    from_writing x (unopened y) h = h
    from_writing x (opening y inner') h = h

  module _ (x : Bytes) (k k' : Cipher c) where
    to_unopened : (s : Sending c) → Key p q mutex s no_recv k k' → Key p q mutex s (unopened x) k k'
    to_unopened no_send h = h
    to_unopened (sealing n m plain inner) h = h
    to_unopened (writing n m y) h = h

    to_opening :
        (inner : InnerAesCipher c) (s : Sending c)
        → sender_holds s ≡ false
        → get k' ≡ (ok inner, k)
        → Key p q mutex s (opening x inner) k k'
    to_opening inner no_send h g = g
    to_opening inner (sealing n m plain inner') h g = cc
    to_opening inner (writing n m y) h g = g

    from_opening :
        (inner : InnerAesCipher c) (s : Sending c)
        → Key p q mutex s (opening x inner) k k'
        → (sender_holds s ≡ false) × (get k' ≡ (ok inner, k))
    from_opening inner no_send g = (refl, g)
    from_opening inner (sealing n m plain inner') h = absurd h
    from_opening inner (writing n m y) g = (refl, g)

  module _ (il : IsLocked p q mutex) {e : End R W K} where
    Runs-Linear :
        {a : End R W (Cipher c)} {s : Sending c} {r : Receiving c}
        → Runs p (with_mutex mutex e) a s r
        → Linear p q mutex e a s r
    Runs-Linear idle = record {
      atomic = e;
      calls = no_calls;
      key = refl;
      ahead = (refl, refl);
      behind = refl;
      same_got = refl;
    }
    Runs-Linear (unprepared new_nonce m f run h) =
        let l = Runs-Linear run in
        send_failed p q mutex il new_nonce m f _ _ l l.ahead (seal_early p new_nonce m f _ h) l.key
    Runs-Linear (locks_send {a} {r} new_nonce m plain inner k run hr h g) =
        let l = Runs-Linear run in
        let same = free p q mutex no_send r _ _ refl hr l.key in
        record {
          atomic = l.atomic;
          calls = l.calls;
          key = to_sealing new_nonce m plain inner k _ r hr h (rw same at g);
          ahead = l.ahead;
          behind = l.behind;
          same_got = l.same_got;
        }
    Runs-Linear (no_cipher_send {a} {r} new_nonce m plain f k run hr h g) =
        let l = Runs-Linear run in
        let same = free p q mutex no_send r _ _ refl hr l.key in
        send_failed p q mutex il new_nonce m f k k l l.ahead
          (seal_no_cipher p new_nonce m plain _ k h f (rw same at g))
          (to_free p q mutex no_send r k k refl hr refl)
    Runs-Linear (seals {a} {r} new_nonce m plain x inner k run u) =
        let l = Runs-Linear run in
        let (hr, h, g) = from_sealing new_nonce m plain inner _ _ r l.key in
        send_sealed p q mutex il new_nonce m x k l l.ahead hr
          (seal_under p new_nonce m plain _ _ h inner g ∙ u)
    Runs-Linear (seals_nothing {a} {r} new_nonce m plain inner f k run u) =
        let l = Runs-Linear run in
        let (hr, h, g) = from_sealing new_nonce m plain inner _ _ r l.key in
        send_failed p q mutex il new_nonce m f k k l l.ahead
          (seal_under p new_nonce m plain _ _ h inner g ∙ u)
          (to_free p q mutex no_send r k k refl hr refl)
    Runs-Linear (writes {a} {r} new_nonce m x run) =
        let l = Runs-Linear run in
        record {
          atomic = l.atomic;
          calls = l.calls;
          key = from_writing new_nonce m _ _ x r l.key;
          ahead = l.ahead;
          behind = l.behind;
          same_got = l.same_got;
        }
    Runs-Linear (fetches {a} {s} x r run g) =
        let l = Runs-Linear run in
        record {
          atomic = l.atomic;
          calls = l.calls;
          key = to_unopened x _ _ s l.key;
          ahead = l.ahead;
          behind = rw (← l.behind) at g;
          same_got = l.same_got;
        }
    Runs-Linear (fetches_nothing f r run g) =
        let l = Runs-Linear run in recv_failed p q mutex il f r l g
    Runs-Linear (locks_recv {a} {s} x inner k run hs g) =
        let l = Runs-Linear run in
        let same = free p q mutex s (unopened x) _ _ hs refl l.key in
        record {
          atomic = l.atomic;
          calls = l.calls;
          key = to_opening x k _ inner s hs (rw same at g);
          ahead = l.ahead;
          behind = l.behind;
          same_got = l.same_got;
        }
    Runs-Linear (no_cipher_recv {a} {s} x f k run hs g) =
        let l = Runs-Linear run in
        let same = free p q mutex s (unopened x) _ _ hs refl l.key in
        recv_opened p q mutex il x (failed f) k (unopened x) l l.behind hs
          (unseal_no_cipher p x _ k f (rw same at g))
    Runs-Linear (opens {a} {s} x inner run) =
        let l = Runs-Linear run in
        let (hs, g) = from_opening x _ _ inner s l.key in
        recv_opened p q mutex il x _ _ (opening x inner) l l.behind hs
          (unseal_under p x _ _ inner g)

  -- An end that calls made one after the other lead to.
  pub record IsSequential (e : End R W K) (a : End R W (Cipher c)) : Type 0 where
    pub kept : K
    pub same_cipher : a.cipher ≡ mutex kept
    pub calls :
        Calls q e (record {
          reader = a.reader;
          writer = a.writer;
          cipher = kept;
          sent = a.sent;
          got = a.got;
        })

  End-same :
      (a b : End R W K)
      → a.reader ≡ b.reader
      → a.writer ≡ b.writer
      → a.cipher ≡ b.cipher
      → a.sent ≡ b.sent
      → a.got ≡ b.got
      → a ≡ b
  End-same a b r w k l g i = record {
    reader = r i;
    writer = w i;
    cipher = k i;
    sent = l i;
    got = g i;
  }

  Linear-IsSequential :
      {e : End R W K} {a : End R W (Cipher c)}
      → Linear p q mutex e a no_send no_recv
      → IsSequential e a
  Linear-IsSequential {a = a} l = record {
    kept = l.atomic.cipher;
    same_cipher = l.key;
    calls =
        rw
          (← End-same l.atomic
            (record {
              reader = a.reader;
              writer = a.writer;
              cipher = l.atomic.cipher;
              sent = a.sent;
              got = a.got;
            })
            l.behind l.ahead.0 refl l.ahead.1 l.same_got)
          l.calls;
  }

  pub Runs-IsSequential :
      {e : End R W K} {a : End R W (Cipher c)}
      → IsLocked p q mutex
      → Runs p (with_mutex mutex e) a no_send no_recv
      → IsSequential e a
  Runs-IsSequential il run = Linear-IsSequential (Runs-Linear il run)
