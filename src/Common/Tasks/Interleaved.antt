-- ===== src/Common/Tasks/Interleaved.antt =====
-- The steps of the two tasks.
use tcp_handler.Base.{◌≡◌, Bool, true, false, [], ◌∷◌, ◌++◌, ok}
use tcp_handler.Transport.{Bytes}
use tcp_handler.Crypto.{Crypto}
use tcp_handler.Common.Cipher.{InnerAesCipher, Cipher, get}
use tcp_handler.Common.Tasks.{Failure, failed, End, log_sent, Parts}

-- Where the task that sends stands: between calls, under the lock, or with a packet to write.
pub data Sending (c : Crypto) : Type 0 where
  no_send : Sending c
  sealing : (new_nonce m plain : Bytes) → InnerAesCipher c → Sending c
  writing : (new_nonce m x : Bytes) → Sending c

-- Where the task that receives stands: between calls, with a packet to open, or under the lock.
pub data Receiving (c : Crypto) : Type 0 where
  no_recv : Receiving c
  unopened : Bytes → Receiving c
  opening : Bytes → InnerAesCipher c → Receiving c

abbrev pub sender_holds : {c : Crypto} → Sending c → Bool
sender_holds no_send = false
sender_holds (sealing new_nonce m plain inner) = true
sender_holds (writing new_nonce m x) = false

abbrev pub receiver_holds : {c : Crypto} → Receiving c → Bool
receiver_holds no_recv = false
receiver_holds (unopened x) = false
receiver_holds (opening x inner) = true

-- Steps of the two tasks, in any order, where a task takes the lock only while the other one does
-- not hold it. A call that fails under the lock returns, and drops its guard.
module _ {R W : Type 0} {c : Crypto} (p : Parts R W c) where
  pub data Runs (e : End R W (Cipher c))
      : End R W (Cipher c) → Sending c → Receiving c → Type 0 where
    idle : Runs e e no_send no_recv
    unprepared :
        {a : End R W (Cipher c)} {r : Receiving c} (new_nonce m : Bytes) (f : Failure)
        → Runs e a no_send r
        → p.prepare new_nonce m ≡ failed f
        → Runs e (record a { sent = log_sent new_nonce m (failed f) a }) no_send r
    locks_send :
        {a : End R W (Cipher c)} {r : Receiving c} (new_nonce m plain : Bytes)
        (inner : InnerAesCipher c) (k : Cipher c)
        → Runs e a no_send r
        → receiver_holds r ≡ false
        → p.prepare new_nonce m ≡ ok plain
        → get a.cipher ≡ (ok inner, k)
        → Runs e (record a { cipher = k }) (sealing new_nonce m plain inner) r
    no_cipher_send :
        {a : End R W (Cipher c)} {r : Receiving c} (new_nonce m plain : Bytes) (f : Failure)
        (k : Cipher c)
        → Runs e a no_send r
        → receiver_holds r ≡ false
        → p.prepare new_nonce m ≡ ok plain
        → get a.cipher ≡ (failed f, k)
        → Runs e (record a { cipher = k; sent = log_sent new_nonce m (failed f) a }) no_send r
    seals :
        {a : End R W (Cipher c)} {r : Receiving c} (new_nonce m plain x : Bytes)
        (inner : InnerAesCipher c) (k : Cipher c)
        → Runs e a (sealing new_nonce m plain inner) r
        → p.seal_locked new_nonce plain inner a.cipher ≡ (ok x, k)
        → Runs e (record a { cipher = k }) (writing new_nonce m x) r
    seals_nothing :
        {a : End R W (Cipher c)} {r : Receiving c} (new_nonce m plain : Bytes)
        (inner : InnerAesCipher c) (f : Failure) (k : Cipher c)
        → Runs e a (sealing new_nonce m plain inner) r
        → p.seal_locked new_nonce plain inner a.cipher ≡ (failed f, k)
        → Runs e (record a { cipher = k; sent = log_sent new_nonce m (failed f) a }) no_send r
    writes :
        {a : End R W (Cipher c)} {r : Receiving c} (new_nonce m x : Bytes)
        → Runs e a (writing new_nonce m x) r
        → Runs e
            (record a {
              writer = (p.put x a.writer).1;
              sent = log_sent new_nonce m (p.put x a.writer).0 a;
            })
            no_send
            r
    fetches :
        {a : End R W (Cipher c)} {s : Sending c} (x : Bytes) (r : R)
        → Runs e a s no_recv
        → p.fetch a.reader ≡ (ok x, r)
        → Runs e (record a { reader = r }) s (unopened x)
    fetches_nothing :
        {a : End R W (Cipher c)} {s : Sending c} (f : Failure) (r : R)
        → Runs e a s no_recv
        → p.fetch a.reader ≡ (failed f, r)
        → Runs e (record a { reader = r; got = a.got ++ failed f ∷ [] }) s no_recv
    locks_recv :
        {a : End R W (Cipher c)} {s : Sending c} (x : Bytes) (inner : InnerAesCipher c)
        (k : Cipher c)
        → Runs e a s (unopened x)
        → sender_holds s ≡ false
        → get a.cipher ≡ (ok inner, k)
        → Runs e (record a { cipher = k }) s (opening x inner)
    no_cipher_recv :
        {a : End R W (Cipher c)} {s : Sending c} (x : Bytes) (f : Failure) (k : Cipher c)
        → Runs e a s (unopened x)
        → sender_holds s ≡ false
        → get a.cipher ≡ (failed f, k)
        → Runs e (record a { cipher = k; got = a.got ++ failed f ∷ [] }) s no_recv
    opens :
        {a : End R W (Cipher c)} {s : Sending c} (x : Bytes) (inner : InnerAesCipher c)
        → Runs e a s (opening x inner)
        → Runs e
            (record a {
              cipher = (p.unseal_locked x inner a.cipher).1;
              got = a.got ++ (p.unseal_locked x inner a.cipher).0 ∷ [];
            })
            s
            no_recv
