-- ===== src/Tests/Duplex.antt =====
-- What the repository's tests of src/protocols share: the two ends of `tokio::io::duplex`, which
-- passes on what is written at once, over the transport in memory; and how a test fails.
use tcp_handler.Base.{
  ◌≡◌, refl, ℕ, zero, suc, if◌then◌else◌, [], ◌++◌, ok, panic, Action, ◌>>=◌, ◌>>◌, pure, lift,
  convert, bytes_eq,
}
use tcp_handler.Transport.{Bytes, Str, string}
use tcp_handler.Transport.Memory.{MemoryWriter, memory, encode}
use tcp_handler.Common.Errors.{PacketError}
use tcp_handler.Common.Cipher.{Cipher}
use tcp_handler.Crypto.{Crypto}

-- What the server and the client have not read yet.
pub record Duplex : Type 0 where
  pub to_server : Bytes
  pub to_client : Bytes

-- `create`
abbrev pub create : Duplex
create = record { to_server = []; to_client = [] }

-- `anyhow::Error`, of which only the presence matters.
abbrev pub Test : Type 0 → Type 0
Test A = Action Duplex (Unit {0}) A

abbrev unbuffered : MemoryWriter
unbuffered = record { sent = []; buffered = [] }

module _ {E A : Type 0} where
  abbrev pub at_client_writer : Action MemoryWriter E A → Action Duplex E A
  at_client_writer m s =
      let done = m unbuffered in
      (done.0, record s { to_server = s.to_server ++ done.1.sent ++ done.1.buffered })

  abbrev pub at_server_writer : Action MemoryWriter E A → Action Duplex E A
  at_server_writer m s =
      let done = m unbuffered in
      (done.0, record s { to_client = s.to_client ++ done.1.sent ++ done.1.buffered })

  abbrev pub at_client_reader : Action Bytes E A → Action Duplex E A
  at_client_reader m s = let done = m s.to_client in (done.0, record s { to_client = done.1 })

  abbrev pub at_server_reader : Action Bytes E A → Action Duplex E A
  at_server_reader m s = let done = m s.to_server in (done.0, record s { to_server = done.1 })

  -- A call with `?`.
  abbrev pub try_call : Action Duplex E A → Test A
  try_call m = convert (λ _. tt) m

-- `assert_eq!` panics on different values.
abbrev pub assert_eq : Bytes → Bytes → Test (Unit {0})
assert_eq a b s = ((if bytes_eq a b then ok tt else panic), s)

-- `write_string` to a buffer, and `read_string` from a message.
abbrev pub written : Str → Bytes
written v = encode string v

abbrev pub read_string : Bytes → Test Str
read_string message = try_call (lift (memory.read string message).0)

-- The ciphers that the client and the server borrow.
abbrev pub Ciphers : Crypto → Type 0
Ciphers c = Cipher c × Cipher c

abbrev pub Sealed : Crypto → Type 0 → Type 0
Sealed c A = Action (Duplex × Ciphers c) (Unit {0}) A

module _ {c : Crypto} {A : Type 0} where
  abbrev pub client_sends :
      Action (MemoryWriter × Cipher c) PacketError A → Action (Duplex × Ciphers c) PacketError A
  client_sends m (s, (client, server)) =
      let done = m (unbuffered, client) in
      (
        done.0,
        (
          record s { to_server = s.to_server ++ done.1.0.sent ++ done.1.0.buffered },
          (done.1.1, server),
        ),
      )

  abbrev pub server_sends :
      Action (MemoryWriter × Cipher c) PacketError A → Action (Duplex × Ciphers c) PacketError A
  server_sends m (s, (client, server)) =
      let done = m (unbuffered, server) in
      (
        done.0,
        (
          record s { to_client = s.to_client ++ done.1.0.sent ++ done.1.0.buffered },
          (client, done.1.1),
        ),
      )

  abbrev pub client_receives :
      Action (Bytes × Cipher c) PacketError A → Action (Duplex × Ciphers c) PacketError A
  client_receives m (s, (client, server)) =
      let done = m (s.to_client, client) in
      (done.0, (record s { to_client = done.1.0 }, (done.1.1, server)))

  abbrev pub server_receives :
      Action (Bytes × Cipher c) PacketError A → Action (Duplex × Ciphers c) PacketError A
  server_receives m (s, (client, server)) =
      let done = m (s.to_server, server) in
      (done.0, (record s { to_server = done.1.0 }, (client, done.1.1)))

  abbrev pub try_sealed : Action (Duplex × Ciphers c) PacketError A → Sealed c A
  try_sealed m = convert (λ _. tt) m

  -- What runs while both ciphers exist.
  abbrev pub with_ciphers : Cipher c → Cipher c → Sealed c A → Test A
  with_ciphers client server m s = let done = m (s, (client, server)) in (done.0, done.1.0)

module _ {S : Type 0} where
  -- `for _ in 0..n`
  unfoldable pub repeated : ℕ → Action S (Unit {0}) (Unit {0}) → Action S (Unit {0}) (Unit {0})
  repeated zero body = pure tt
  repeated (suc n) body = body >> repeated n body

  pub repeated_same :
      (n : ℕ) (body : Action S (Unit {0}) (Unit {0})) (s : S)
      → body s ≡ (ok tt, s)
      → repeated n body s ≡ (ok tt, s)
  unfolding repeated ◌>>=◌
  repeated_same zero body s h = refl
  repeated_same (suc n) body s h = rw h (repeated_same n body s h)

  -- The first pass leaves what all later ones leave as it is.
  pub repeated_then :
      (n : ℕ) (body : Action S (Unit {0}) (Unit {0})) (s s' : S)
      → body s ≡ (ok tt, s')
      → body s' ≡ (ok tt, s')
      → repeated (suc n) body s ≡ (ok tt, s')
  unfolding repeated ◌>>=◌
  repeated_then n body s s' h h' = rw h (repeated_same n body s' h')
