-- ===== src/Common/Tasks.antt =====
-- Two tasks at one end that share its cipher: one calls `send` over and over, the other `recv`. The
-- writer is borrowed by the one, the reader by the other; the mutex is taken for a time by either.
-- Each access to the mutex is a step of its own, and so is what a call awaits.
pub mod Interleaved
pub mod Register
pub mod Closures
pub mod Bodies
pub mod Linear
pub mod Order
use tcp_handler.Base.{◌≡◌, List, [], ◌∷◌, ◌++◌, Outcome, ok, err, panic, Action, lift, ◌>>=◌}
use tcp_handler.Transport.{Bytes}
use tcp_handler.Crypto.{Crypto}
use tcp_handler.Common.Errors.{PacketError}
use tcp_handler.Common.Cipher.{InnerAesCipher, Cipher, get}

-- A result that is no value.
pub data Failure : Type 0 where
  error : PacketError → Failure
  unwinding : Failure

abbrev pub failed : {A : Type 0} → Failure → Outcome PacketError A
failed (error e) = err e
failed unwinding = panic

-- A call of `send` that has returned: the nonce that it drew, its message, and its result.
pub record Sent : Type 0 where
  pub new_nonce : Bytes
  pub message : Bytes
  pub result : Outcome PacketError (Unit {0})

-- An end, with the calls that have returned; `K` is what it keeps of its cipher.
pub record End (R W K : Type 0) : Type 0 where
  pub reader : R
  pub writer : W
  pub cipher : K
  pub sent : List Sent
  pub got : List (Outcome PacketError Bytes)

abbrev pub log_sent :
    {R W K : Type 0} → Bytes → Bytes → Outcome PacketError (Unit {0}) → End R W K → List Sent
log_sent new_nonce m result a =
    a.sent ++ record { new_nonce = new_nonce; message = m; result = result } ∷ []

-- What is left to do for a call of `send` after its closure: the result, and the writer.
abbrev pub finish_send :
    {W : Type 0}
    → (Bytes → Action W PacketError (Unit {0}))
    → W
    → Outcome PacketError Bytes
    → Outcome PacketError (Unit {0}) × W
finish_send put w (ok x) = put x w
finish_send put w (err e) = (err e, w)
finish_send put w panic = (panic, w)

-- What is left to do for a call of `recv` after its packet was read: the result, and the cipher.
abbrev pub finish_recv :
    {K : Type 0}
    → (Bytes → Action K PacketError Bytes)
    → K
    → Outcome PacketError Bytes
    → Outcome PacketError Bytes × K
finish_recv unseal k (ok x) = unseal x k
finish_recv unseal k (err e) = (err e, k)
finish_recv unseal k panic = (panic, k)

-- An end of which only one call runs at a time.
pub record Sequential (R W K : Type 0) : Type 0 where
  pub seal : Bytes → Bytes → Action K PacketError Bytes
  pub unseal : Bytes → Action K PacketError Bytes
  pub put : Bytes → Action W PacketError (Unit {0})
  pub fetch : Action R PacketError Bytes

module _ {R W K : Type 0} (p : Sequential R W K) where
  abbrev pub after_send : Bytes → Bytes → End R W K → End R W K
  after_send new_nonce m a =
      let (o, k) = p.seal new_nonce m a.cipher in
      let (result, w) = finish_send p.put a.writer o in
      record a { writer = w; cipher = k; sent = log_sent new_nonce m result a }

  abbrev pub after_recv : End R W K → End R W K
  after_recv a =
      let (o, r) = p.fetch a.reader in
      let (result, k) = finish_recv p.unseal a.cipher o in
      record a { reader = r; cipher = k; got = a.got ++ result ∷ [] }

  -- Calls made one after the other.
  pub data Calls (e : End R W K) : End R W K → Type 0 where
    no_calls : Calls e e
    then_send :
        {a : End R W K} (new_nonce m : Bytes) → Calls e a → Calls e (after_send new_nonce m a)
    then_recv : {a : End R W K} → Calls e a → Calls e (after_recv a)

-- The code, and its closures cut at the accesses to the mutex.
pub record Parts (R W : Type 0) (c : Crypto) : Type 0 where
  pub send : Bytes → Bytes → Action (W × Cipher c) PacketError (Unit {0})
  pub recv : Action (R × Cipher c) PacketError Bytes
  pub seal : Bytes → Bytes → Action (Cipher c) PacketError Bytes
  pub unseal : Bytes → Action (Cipher c) PacketError Bytes
  pub put : Bytes → Action W PacketError (Unit {0})
  pub fetch : Action R PacketError Bytes
  -- The closure of `send` before it takes the lock, and from there to its end.
  pub prepare : Bytes → Bytes → Outcome PacketError Bytes
  pub seal_locked : Bytes → Bytes → InnerAesCipher c → Action (Cipher c) PacketError Bytes
  -- The closure of `recv` from the lock to its end.
  pub unseal_locked : Bytes → InnerAesCipher c → Action (Cipher c) PacketError Bytes
  pub send_parts :
      (new_nonce m : Bytes) (w : W) (k : Cipher c)
      → let (o, k') = seal new_nonce m k in
        let (result, w') = finish_send put w o in send new_nonce m (w, k) ≡ (result, (w', k'))
  pub recv_parts :
      (r : R) (k : Cipher c)
      → let (o, r') = fetch r in
        let (result, k') = finish_recv unseal k o in recv (r, k) ≡ (result, (r', k'))
  pub seal_parts :
      (new_nonce m : Bytes)
      → seal new_nonce m
        ≡ (lift (prepare new_nonce m) >>= λ plain. get >>= seal_locked new_nonce plain)
  pub unseal_parts : (x : Bytes) → unseal x ≡ (get >>= unseal_locked x)
