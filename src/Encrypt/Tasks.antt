-- ===== src/Encrypt/Tasks.antt =====
-- Two tasks that share the cipher of one end of an encrypted connection.
use tcp_handler.Base.{
  ◌≡◌, refl, ◌++◌, some, inl, inr, Option-cases, Outcome-cases, Bool, Outcome, ok, Action, ◌>>=◌,
  lift, pure, ok_or, ap, ◌∙◌, ◌>>◌,
}
use tcp_handler.Config.{Config}
use tcp_handler.Transport.{Bytes, Transport}
use tcp_handler.Crypto.{Crypto}
use tcp_handler.Common.Errors.{PacketError, aes, packet}
use tcp_handler.Common.Cipher.{InnerAesCipher, Cipher, get, reset, guarded, read_nonce}
use tcp_handler.Common.Last.{flush}
use tcp_handler.Common.Packet.{write_packet, read_packet}
use tcp_handler.Common.Tasks.{End, Parts, Sequential, finish_send, finish_recv}
use tcp_handler.Common.Tasks.Bodies.{write_and_flush, send_body_parts, recv_body_parts}
use tcp_handler.Common.Tasks.Interleaved.{Runs, no_send, no_recv}
use tcp_handler.Common.Tasks.Linear.{IsLocked}
use tcp_handler.Common.Tasks.Order.{with_mutex, IsSequential, Runs-IsSequential}
use tcp_handler.Common.Tasks.Register.{
  Register, ready, shut, poisoned, mutex, with_nonce, announced, decrypted, parted,
}
use tcp_handler.Encrypt.{seal, unseal, send, recv}

module _ (t : Transport) (c : Crypto) (af : Bool) (config : Config) where
  -- What a call of `send` awaits.
  abbrev pub put : Bytes → Action t.Writer PacketError (Unit {0})
  put = write_and_flush (write_packet t config) (packet (flush t af))

  pub send_parts :
      (new_nonce m : Bytes) (w : t.Writer) (k : Cipher c)
      → send t c af config new_nonce m (w, k) ≡ (
        (finish_send put w (seal t c new_nonce m k).0).0,
        ((finish_send put w (seal t c new_nonce m k).0).1, (seal t c new_nonce m k).1),
      )
  unfolding send
  send_parts new_nonce m =
      send_body_parts (write_packet t config) (packet (flush t af)) (seal t c new_nonce m)

  pub recv_parts :
      (r : t.Reader) (k : Cipher c)
      → recv t c config (r, k) ≡ (
        (finish_recv (unseal t c) k (read_packet t config r).0).0,
        ((read_packet t config r).1, (finish_recv (unseal t c) k (read_packet t config r).0).1),
      )
  unfolding recv
  recv_parts = recv_body_parts (read_packet t config) (unseal t c)

  -- The closures, cut where they take the lock.
  abbrev pub prepare : Bytes → Bytes → Outcome PacketError Bytes
  prepare new_nonce m = ok (new_nonce ++ m)

  abbrev pub seal_locked : Bytes → Bytes → InnerAesCipher c → Action (Cipher c) PacketError Bytes
  seal_locked new_nonce plain (cipher, nonce) = guarded do
    bytes ← lift (ok_or aes (c.encrypt_in_place cipher nonce plain))
    reset (cipher, new_nonce)
    pure bytes

  abbrev pub unseal_locked : Bytes → InnerAesCipher c → Action (Cipher c) PacketError Bytes
  unseal_locked bytes (cipher, nonce) = guarded do
    plain ← lift (ok_or aes (c.decrypt_in_place cipher nonce bytes))
    (new_nonce, message) ← packet (lift (read_nonce plain))
    reset (cipher, new_nonce)
    pure message

  pub seal_parts :
      (new_nonce m : Bytes)
      → seal t c new_nonce m
        ≡ (lift (prepare new_nonce m) >>= λ plain. get >>= seal_locked new_nonce plain)
  unfolding seal ◌>>=◌
  seal_parts new_nonce m = refl

  pub unseal_parts : (x : Bytes) → unseal t c x ≡ (get >>= unseal_locked x)
  unfolding unseal ◌>>=◌
  unseal_parts x = refl

  abbrev pub parts : Parts t.Reader t.Writer c
  parts = record {
    send = send t c af config;
    recv = recv t c config;
    seal = seal t c;
    unseal = unseal t c;
    put = put;
    fetch = read_packet t config;
    prepare = prepare;
    seal_locked = seal_locked;
    unseal_locked = unseal_locked;
    send_parts = send_parts;
    recv_parts = recv_parts;
    seal_parts = seal_parts;
    unseal_parts = unseal_parts;
  }

  module _ (a : c.Aes) where
    -- The same end without a mutex: the nonces under which its calls encrypt and decrypt.
    abbrev pub without_mutex : Sequential t.Reader t.Writer Register
    without_mutex = record {
      seal = λ new_nonce m.
          with_nonce (λ nonce. announced new_nonce (c.encrypt_in_place a nonce (new_nonce ++ m)));
      unseal = λ x.
          with_nonce (λ nonce.
            decrypted (λ plain. parted (read_nonce plain)) (c.decrypt_in_place a nonce x));
      put = put;
      fetch = read_packet t config;
    }

    seal_mutex :
        (new_nonce m : Bytes) (k : Register)
        → seal t c new_nonce m (mutex a k)
          ≡ ((without_mutex.seal new_nonce m k).0, mutex a (without_mutex.seal new_nonce m k).1)
    unfolding seal get guarded reset ◌>>=◌
    seal_mutex new_nonce m (ready nonce) =
        elim (Option-cases (c.encrypt_in_place a nonce (new_nonce ++ m))) [
          | inl e ↦ rw e refl
          | inr (x, e) ↦ rw e refl
        ]
    seal_mutex new_nonce m shut = refl
    seal_mutex new_nonce m poisoned = refl

    read_mutex :
        (x nonce plain : Bytes)
        → c.decrypt_in_place a nonce x ≡ some plain
        → unseal t c x (mutex a (ready nonce))
          ≡ ((parted (read_nonce plain)).0, mutex a (parted (read_nonce plain)).1)
    unfolding unseal get guarded reset ◌>>=◌
    read_mutex x nonce plain e = elim (Outcome-cases (read_nonce plain)) [
      | inl (p, h) ↦ rw (e, h) refl
      | inr (inl (f, h)) ↦ rw (e, h) refl
      | inr (inr h) ↦ rw (e, h) refl
    ]

    unseal_mutex :
        (x : Bytes) (k : Register)
        → unseal t c x (mutex a k)
          ≡ ((without_mutex.unseal x k).0, mutex a (without_mutex.unseal x k).1)
    unfolding unseal get guarded ◌>>=◌
    unseal_mutex x (ready nonce) = elim (Option-cases (c.decrypt_in_place a nonce x)) [
      | inl e ↦ rw e refl
      | inr (plain, e) ↦
          let right : parted (read_nonce plain) ≡ without_mutex.unseal x (ready nonce) =
            rw e refl in
          read_mutex x nonce plain e ∙ ap (λ o. (o.0, mutex a o.1)) right
    ]
    unseal_mutex x shut = refl
    unseal_mutex x poisoned = refl

    parts-IsLocked : IsLocked parts without_mutex (mutex a)
    parts-IsLocked = record {
      seal_mutex = seal_mutex;
      unseal_mutex = unseal_mutex;
      same_put = refl;
      same_fetch = refl;
    }

    -- Let one task at an end call `send` over and over, and another one `recv`, on the same cipher.
    -- Let their steps come in any order, where the accesses to the mutex, `get` and the rest of a
    -- closure up to where it drops its guard, are steps of their own, and a task takes the lock
    -- only while the other one does not hold it. Let the mutex hold a nonce at first, or nothing,
    -- or be poisoned. Whenever neither task is inside a call, the streams and the results of all
    -- calls are those of the same calls made one after the other, each task's in its order, at an
    -- end that keeps a nonce and no mutex: a `send` encrypts the new nonce and the message under
    -- the nonce that is kept, and then keeps the new one; a `recv` decrypts under the nonce that is
    -- kept, and then keeps the one in front of the message. The mutex then holds the nonce that
    -- this end keeps, or nothing after an error, or is poisoned after a panic.
    pub encrypt_tasks :
        {e : End t.Reader t.Writer Register} {b : End t.Reader t.Writer (Cipher c)}
        → Runs parts (with_mutex (mutex a) e) b no_send no_recv
        → IsSequential parts without_mutex (mutex a) e b
    encrypt_tasks = Runs-IsSequential parts without_mutex (mutex a) parts-IsLocked
