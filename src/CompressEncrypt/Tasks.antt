-- ===== src/CompressEncrypt/Tasks.antt =====
-- Two tasks that share the cipher of one end of a connection that compresses and encrypts.
use tcp_handler.Base.{
  ◌≡◌, refl, ◌++◌, some, inl, inr, Option-cases, Outcome-cases, Bool, Outcome, ok, Action, ◌>>=◌,
  lift, pure, ok_or, map_err, ap, ◌∙◌, ◌>>◌,
}
use tcp_handler.Config.{Config, get_compression}
use tcp_handler.Transport.{Bytes, Transport}
use tcp_handler.Crypto.{Crypto, Deflate}
use tcp_handler.Common.Errors.{PacketError, aes, packet}
use tcp_handler.Common.Cipher.{InnerAesCipher, Cipher, get, reset, guarded, read_nonce}
use tcp_handler.Common.Last.{flush}
use tcp_handler.Common.Packet.{write_packet, read_packet}
use tcp_handler.Common.Tasks.{End, Parts, Sequential, finish_send, finish_recv}
use tcp_handler.Common.Tasks.Bodies.{write_and_flush, send_body_parts, recv_body_parts}
use tcp_handler.Common.Tasks.Interleaved.{Runs, no_send, no_recv}
use tcp_handler.Common.Tasks.Linear.{IsLocked}
use tcp_handler.Common.Tasks.Order.{with_mutex, IsSequential, Runs-IsSequential}
use tcp_handler.Common.Tasks.Register.{
  Register, ready, shut, poisoned, mutex, with_nonce, announced, decrypted, parted, deflated,
  inflated,
}
use tcp_handler.CompressEncrypt.{seal, unseal, send, recv}

module _ (t : Transport) (c : Crypto) (d : Deflate) (af : Bool) (config : Config) where
  -- What a call of `send` awaits.
  abbrev pub put : Bytes → Action t.Writer PacketError (Unit {0})
  put = write_and_flush (write_packet t config) (packet (flush t af))

  pub send_parts :
      (new_nonce m : Bytes) (w : t.Writer) (k : Cipher c)
      → send t c d af config new_nonce m (w, k) ≡ (
        (finish_send put w (seal t c d (get_compression config) new_nonce m k).0).0,
        (
          (finish_send put w (seal t c d (get_compression config) new_nonce m k).0).1,
          (seal t c d (get_compression config) new_nonce m k).1,
        ),
      )
  unfolding send
  send_parts new_nonce m =
      send_body_parts (write_packet t config) (packet (flush t af))
        (seal t c d (get_compression config) new_nonce m)

  pub recv_parts :
      (r : t.Reader) (k : Cipher c)
      → recv t c d config (r, k) ≡ (
        (finish_recv (unseal t c d) k (read_packet t config r).0).0,
        ((read_packet t config r).1, (finish_recv (unseal t c d) k (read_packet t config r).0).1),
      )
  unfolding recv
  recv_parts = recv_body_parts (read_packet t config) (unseal t c d)

  -- The closures, cut where they take the lock.
  abbrev pub prepare : Bytes → Bytes → Outcome PacketError Bytes
  prepare new_nonce m = map_err PacketError.io (d.deflate (get_compression config) (new_nonce ++ m))

  abbrev pub seal_locked : Bytes → Bytes → InnerAesCipher c → Action (Cipher c) PacketError Bytes
  seal_locked new_nonce plain (cipher, nonce) = guarded do
    bytes ← lift (ok_or aes (c.encrypt_in_place cipher nonce plain))
    reset (cipher, new_nonce)
    pure bytes

  abbrev pub unseal_locked : Bytes → InnerAesCipher c → Action (Cipher c) PacketError Bytes
  unseal_locked bytes (cipher, nonce) = guarded do
    buffer ← lift (ok_or aes (c.decrypt_in_place cipher nonce bytes))
    plain ← packet (lift (d.inflate buffer))
    (new_nonce, message) ← packet (lift (read_nonce plain))
    reset (cipher, new_nonce)
    pure message

  pub seal_parts :
      (new_nonce m : Bytes)
      → seal t c d (get_compression config) new_nonce m
        ≡ (lift (prepare new_nonce m) >>= λ plain. get >>= seal_locked new_nonce plain)
  unfolding seal ◌>>=◌
  seal_parts new_nonce m = refl

  pub unseal_parts : (x : Bytes) → unseal t c d x ≡ (get >>= unseal_locked x)
  unfolding unseal ◌>>=◌
  unseal_parts x = refl

  abbrev pub parts : Parts t.Reader t.Writer c
  parts = record {
    send = send t c d af config;
    recv = recv t c d config;
    seal = seal t c d (get_compression config);
    unseal = unseal t c d;
    put = put;
    fetch = read_packet t config;
    prepare = prepare;
    seal_locked = seal_locked;
    unseal_locked = unseal_locked;
    send_parts = send_parts;
    recv_parts = recv_parts;
    seal_parts = seal_parts;
    unseal_parts = unseal_parts;
  }

  module _ (a : c.Aes) where
    -- The same end without a mutex: the nonces under which its calls encrypt and decrypt.
    abbrev pub without_mutex : Sequential t.Reader t.Writer Register
    without_mutex = record {
      seal = λ new_nonce m.
          deflated (d.deflate (get_compression config) (new_nonce ++ m))
            (λ plain. with_nonce (λ nonce. announced new_nonce (c.encrypt_in_place a nonce plain)));
      unseal = λ x. with_nonce (λ nonce.
          decrypted (λ buffer. inflated (d.inflate buffer)) (c.decrypt_in_place a nonce x));
      put = put;
      fetch = read_packet t config;
    }

    -- A message whose compression succeeds.
    prepared :
        (new_nonce m plain : Bytes) (k : Register)
        → d.deflate (get_compression config) (new_nonce ++ m) ≡ ok plain
        → seal t c d (get_compression config) new_nonce m (mutex a k) ≡ (
            let o =
              with_nonce (λ nonce. announced new_nonce (c.encrypt_in_place a nonce plain)) k in
            (o.0, mutex a o.1))
    unfolding seal get guarded reset ◌>>=◌
    prepared new_nonce m plain (ready nonce) h =
        elim (Option-cases (c.encrypt_in_place a nonce plain)) [
          | inl e ↦ rw (h, e) refl
          | inr (x, e) ↦ rw (h, e) refl
        ]
    prepared new_nonce m plain shut h = rw h refl
    prepared new_nonce m plain poisoned h = rw h refl

    seal_mutex :
        (new_nonce m : Bytes) (k : Register)
        → seal t c d (get_compression config) new_nonce m (mutex a k)
          ≡ ((without_mutex.seal new_nonce m k).0, mutex a (without_mutex.seal new_nonce m k).1)
    unfolding seal ◌>>=◌
    seal_mutex new_nonce m k =
        elim (Outcome-cases (d.deflate (get_compression config) (new_nonce ++ m))) [
          | inl (plain, h) ↦
              let right : with_nonce
                    (λ nonce. announced new_nonce (c.encrypt_in_place a nonce plain)) k
                  ≡ without_mutex.seal new_nonce m k =
                rw h refl in
              prepared new_nonce m plain k h ∙ ap (λ o. (o.0, mutex a o.1)) right
          | inr (inl (e, h)) ↦ rw h refl
          | inr (inr h) ↦ rw h refl
        ]

    -- A packet that is decrypted and inflated.
    read_mutex :
        (x nonce buffer plain : Bytes)
        → c.decrypt_in_place a nonce x ≡ some buffer
        → d.inflate buffer ≡ ok plain
        → unseal t c d x (mutex a (ready nonce))
          ≡ ((parted (read_nonce plain)).0, mutex a (parted (read_nonce plain)).1)
    unfolding unseal get guarded reset ◌>>=◌
    read_mutex x nonce buffer plain e i = elim (Outcome-cases (read_nonce plain)) [
      | inl (p, h) ↦ rw (e, i, h) refl
      | inr (inl (f, h)) ↦ rw (e, i, h) refl
      | inr (inr h) ↦ rw (e, i, h) refl
    ]

    -- A packet that is decrypted.
    inflate_mutex :
        (x nonce buffer : Bytes)
        → c.decrypt_in_place a nonce x ≡ some buffer
        → unseal t c d x (mutex a (ready nonce))
          ≡ ((inflated (d.inflate buffer)).0, mutex a (inflated (d.inflate buffer)).1)
    unfolding unseal get guarded ◌>>=◌
    inflate_mutex x nonce buffer e = elim (Outcome-cases (d.inflate buffer)) [
      | inl (plain, i) ↦
          let right : parted (read_nonce plain) ≡ inflated (d.inflate buffer) = rw i refl in
          read_mutex x nonce buffer plain e i ∙ ap (λ o. (o.0, mutex a o.1)) right
      | inr (inl (f, h)) ↦ rw (e, h) refl
      | inr (inr h) ↦ rw (e, h) refl
    ]

    unseal_mutex :
        (x : Bytes) (k : Register)
        → unseal t c d x (mutex a k)
          ≡ ((without_mutex.unseal x k).0, mutex a (without_mutex.unseal x k).1)
    unfolding unseal get guarded ◌>>=◌
    unseal_mutex x (ready nonce) = elim (Option-cases (c.decrypt_in_place a nonce x)) [
      | inl e ↦ rw e refl
      | inr (buffer, e) ↦
          let right : inflated (d.inflate buffer) ≡ without_mutex.unseal x (ready nonce) =
            rw e refl in
          inflate_mutex x nonce buffer e ∙ ap (λ o. (o.0, mutex a o.1)) right
    ]
    unseal_mutex x shut = refl
    unseal_mutex x poisoned = refl

    parts-IsLocked : IsLocked parts without_mutex (mutex a)
    parts-IsLocked = record {
      seal_mutex = seal_mutex;
      unseal_mutex = unseal_mutex;
      same_put = refl;
      same_fetch = refl;
    }

    -- Let one task at an end call `send` over and over, and another one `recv`, on the same cipher.
    -- Let their steps come in any order, where the accesses to the mutex, `get` and the rest of a
    -- closure up to where it drops its guard, are steps of their own, and a task takes the lock
    -- only while the other one does not hold it. Let the mutex hold a nonce at first, or nothing,
    -- or be poisoned. Whenever neither task is inside a call, the streams and the results of all
    -- calls are those of the same calls made one after the other, each task's in its order, at an
    -- end that keeps a nonce and no mutex: a `send` compresses the new nonce and the message,
    -- encrypts that under the nonce that is kept, and then keeps the new one; a `recv` decrypts
    -- under the nonce that is kept, inflates that, and then keeps the nonce in front of the
    -- message. A message that cannot be compressed changes nothing. The mutex then holds the nonce
    -- that this end keeps, or nothing after an error, or is poisoned after a panic.
    pub compress_encrypt_tasks :
        {e : End t.Reader t.Writer Register} {b : End t.Reader t.Writer (Cipher c)}
        → Runs parts (with_mutex (mutex a) e) b no_send no_recv
        → IsSequential parts without_mutex (mutex a) e b
    compress_encrypt_tasks = Runs-IsSequential parts without_mutex (mutex a) parts-IsLocked
