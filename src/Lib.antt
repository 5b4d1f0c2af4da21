-- ===== src/Lib.antt =====
-- tcp-handler sends messages over a byte stream. A client and a server first run a handshake in one
-- of four protocols: raw, compress, encrypt and compress_encrypt. Then each side sends and receives
-- packets, plain, compressed, encrypted, or both. This library models the whole crate but for its
-- documentation, its benchmarks and the tests of the handlers.
--
-- The program's parts and the files that model them:
--   * src/protocols/common.rs, what the protocols share, is Common: Errors (`PacketError`,
--     `StarterError`), Variant (`ProtocolVariant` and its bits), Head (`write_head`, `read_head`),
--     Last (`write_last`, `read_last`, `flush`), Packet (`check_bytes_len`, `write_packet`,
--     `read_packet`), Keys (`generate_rsa_private`, `compose_rsa_public`) and Cipher (`Cipher` with
--     `new`, `get`, `reset`, `fmt`, and `guarded` for what runs while the lock is held). The modules
--     below them, and Decision, Exchange, KeyExchange, Channel and Tasks, hold specifications and
--     proofs.
--   * src/protocols/raw.rs, compress.rs, encrypt.rs and compress_encrypt.rs are Raw, Compress,
--     Encrypt and CompressEncrypt, with `client_init`, `server_init`, `client_start`,
--     `server_start`, `send` and `recv`. The closures that encrypt and decrypt have names of their
--     own: `open_key`, `seal`, `unseal`.
--   * src/config.rs is Config, what each function does with the configuration and the conversions
--     for serde, and Config.Global, the functions on the lock around it. The protocols are given the
--     configuration that their calls read, as one value for a call.
--   * src/streams is Streams: for each protocol a Server and a Client with the constructor and the
--     methods of its handler, the trait `TcpHandler`, and `from_stream` and `connect` in Net.
--     Streams.Dialogue has the loops of two handlers' callers, one that sends requests and one that
--     replies, and Streams.Session puts a handler's construction before its loop. The interfaces
--     `IsHandler` and `IsConnected`, which the proofs about them use, are filled by each protocol's
--     Dialogue and Session.
--   * Mismatch has the sides of a handshake for any protocol, to join a client of one with a server of
--     another.
--
-- How the code is modelled. An `async fn` that borrows a stream is an `Action` on the state of the
-- stream (Base.Effects): it returns a result, an error or a panic, and the state that it leaves. The
-- `?` operator is the bind of a do block, and the conversion of an error by `From` is written out.
-- A function that borrows a stream and a `Cipher` acts on the pair; `on_left` and `on_right` tell
-- which part a call is on. A function that returns without `?` gives its result to the next one as
-- a value, as `client_init` does to `client_start`.
--
-- A call is run to its end, but in Common.Tasks: there two tasks at one end, of which one sends and
-- the other receives, share a mutex. A call is cut there at its accesses to the mutex and at what it
-- awaits: `get` is a step, the rest of the closure up to where it drops its guard is another one, and
-- `Interleaved.Runs` has the steps of both tasks in any order. What runs under the lock touches
-- nothing else that is shared. Two ends of a connection are run one after the other, and `Carries`
-- says that a reader gets what a writer accepted meanwhile. Calls at both ends of an encrypted
-- connection in any order that keeps to a rule are the relation `Reach` of Common.Channel.
--
-- What is not under src is a parameter:
--   * Transport stands for tokio's `AsyncRead` and `AsyncWrite` with the crate variable-len-reader:
--     a write and a read for each kind of datum, and a flush. `IsLawful` states that a read undoes a
--     write, that a write which fails has written a part, and what a flush passes on; `IsLazy` is a
--     writer that holds its bytes back until a flush, as tokio's `BufWriter` does with fewer bytes
--     than its buffer holds. Transport.Memory is a transport that obeys them.
--   * Crypto stands for the crates rsa and aes-gcm, and Deflate for flate2. `IsCrypto` and
--     `IsDeflate` state that decryption undoes encryption and that inflating undoes deflating;
--     `IsAuthentic` is the ideal authenticity of AES-GCM under different nonces. What is drawn at
--     random (keys, nonces, seeds) is an argument.
--   * Streams.Net stands for tokio's `TcpStream` and its halves.
-- Tests runs the code over the transport in memory, with a cipher and a compression made for it; and
-- it has the repository's own tests of common.rs, the four protocols and the configuration (Duplex,
-- Scenarios, EncryptScenario, CompressEncryptScenario, Configuration), with their runs.
--
-- Bounds. A byte is a natural number, and a text is the bytes of its UTF-8. `usize` has 64 bits: a
-- theorem that sends a length assumes that the configured limit is below 2 ^ 64, and `u16` is the
-- range of `Fits`. No code here loops, so there is no fuel; callers' loops (`send_all`, `recv_all`,
-- `request_all`, `serve_all`) are by structural recursion. The mutex of a cipher and the lock of the
-- configuration carry the flag that a panic under them sets; a closure that holds the mutex awaits
-- nothing, so it is one step.
--
-- Not modelled: the scheduling by `block_in_place`, which panics in a runtime of one thread; the
-- code that serde derives; and the `Drop` of a stream, with which a writer's buffered bytes are
-- lost. The cargo feature `auto_flush` is an argument of the calls that flush; the other features
-- are taken to be on. Of `Debug` for `Cipher` the text of the field is modelled, not the layout
-- around it.
pub mod Base
pub mod Transport
pub mod Config
pub mod Common
pub mod Crypto
pub mod Raw
pub mod Compress
pub mod Encrypt
pub mod CompressEncrypt
pub mod Streams
pub mod Mismatch
pub mod Tests
