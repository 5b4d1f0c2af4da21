-- ===== src/Tests/Scenarios.antt =====
-- The tests in src/protocols/common.rs, raw.rs and compress.rs.
use tcp_handler.Base.{◌≡◌, refl, ap, Bool, true, false, [], ◌∷◌, ok, ◌>>=◌, ◌>>◌, bytes_eq}
use tcp_handler.Transport.{Str}
use tcp_handler.Transport.Memory.{memory, write, read, encode, flush as memory_flush}
use tcp_handler.Config.{default, get_compression}
use tcp_handler.Common.Packet.{write_packet, read_packet, check_bytes_len}
use tcp_handler.Common.Head.{write_head, read_head}
use tcp_handler.Common.Last.{write_last, read_last, flush}
use tcp_handler.Common.Variant.{to_bools, from_bools, variant_eq}
use tcp_handler.Streams.Calls.{attempt}
use tcp_handler.Raw
use tcp_handler.Compress
use tcp_handler.Crypto.{Deflate}
use tcp_handler.Tests.Duplex.{
  create, Test, at_client_writer, at_server_writer, at_client_reader, at_server_reader, try_call,
  assert_eq, written, read_string, repeated, repeated_same,
}
use tcp_handler.Tests.Setup.{toy_deflate}

-- "a" and "1"
abbrev pub identifier : Str
identifier = 97 ∷ []

abbrev pub version : Str
version = 49 ∷ []

abbrev pub accepts : Str → Bool
accepts v = bytes_eq v version

-- `common::tests::packet`
unfoldable pub packet : Test (Unit {0})
packet = do
  let source = 1 ∷ 2 ∷ 3 ∷ 4 ∷ 5 ∷ []
  try_call (at_client_writer (write_packet memory (default 6) source))
  res ← try_call (at_server_reader (read_packet memory (default 6)))
  assert_eq source res

packet_passes : (packet create).0 ≡ ok tt
unfolding packet ◌>>=◌ write_packet check_bytes_len default write read_packet read bytes_eq
packet_passes = refl

-- "hello server in raw." and "hello client in raw."
abbrev raw_to_server : Str
raw_to_server =
    104 ∷ 101 ∷ 108 ∷ 108 ∷ 111 ∷ 32 ∷ 115 ∷ 101 ∷ 114 ∷ 118 ∷ 101 ∷ 114 ∷ 32 ∷ 105 ∷ 110 ∷ 32 ∷ 114
    ∷ 97 ∷ 119 ∷ 46 ∷ []

abbrev raw_to_client : Str
raw_to_client =
    104 ∷ 101 ∷ 108 ∷ 108 ∷ 111 ∷ 32 ∷ 99 ∷ 108 ∷ 105 ∷ 101 ∷ 110 ∷ 116 ∷ 32 ∷ 105 ∷ 110 ∷ 32 ∷ 114
    ∷ 97 ∷ 119 ∷ 46 ∷ []

-- The body of the loop in `raw::tests::connect`.
unfoldable pub raw_exchange : Bool → Test (Unit {0})
raw_exchange auto_flush = do
  try_call (at_client_writer (Raw.send memory auto_flush (default 6) (written raw_to_server)))
  reader ← try_call (at_server_reader (Raw.recv memory (default 6)))
  message ← read_string reader
  assert_eq raw_to_server message
  try_call (at_server_writer (Raw.send memory auto_flush (default 6) (written raw_to_client)))
  reader' ← try_call (at_client_reader (Raw.recv memory (default 6)))
  message' ← read_string reader'
  assert_eq raw_to_client message'

-- `raw::tests::connect`
unfoldable pub raw_connect : Bool → Test (Unit {0})
raw_connect auto_flush = do
  c ← try_call (attempt (at_client_writer (Raw.client_init memory auto_flush identifier version)))
  s ← try_call (attempt (at_server_reader (Raw.server_init memory identifier accepts)))
  _ ← try_call (at_server_writer (Raw.server_start memory auto_flush identifier version s))
  try_call (at_client_reader (Raw.client_start memory c))
  repeated 10 (raw_exchange auto_flush)

raw_exchange_passes : (auto_flush : Bool) → raw_exchange auto_flush create ≡ (ok tt, create)
unfolding raw_exchange Raw.send Raw.recv ◌>>=◌ write_packet check_bytes_len default write flush
    memory_flush read_packet read bytes_eq get_compression encode
raw_exchange_passes true = refl
raw_exchange_passes false = refl

raw_connect_passes : (auto_flush : Bool) → (raw_connect auto_flush create).0 ≡ ok tt
unfolding raw_connect Raw.client_init Raw.server_init Raw.client_start Raw.server_start write_head
    read_head write_last read_last to_bools from_bools variant_eq ◌>>=◌ write_packet check_bytes_len
    default write flush memory_flush read_packet read bytes_eq get_compression encode
raw_connect_passes true =
    ap (λ p. p.0) (repeated_same 10 (raw_exchange true) create (raw_exchange_passes true))
raw_connect_passes false =
    ap (λ p. p.0) (repeated_same 10 (raw_exchange false) create (raw_exchange_passes false))

-- "hello server in compress." and "hello client in compress."
abbrev compress_to_server : Str
compress_to_server =
    104 ∷ 101 ∷ 108 ∷ 108 ∷ 111 ∷ 32 ∷ 115 ∷ 101 ∷ 114 ∷ 118 ∷ 101 ∷ 114 ∷ 32 ∷ 105 ∷ 110 ∷ 32 ∷ 99
    ∷ 111 ∷ 109 ∷ 112 ∷ 114 ∷ 101 ∷ 115 ∷ 115 ∷ 46 ∷ []

abbrev compress_to_client : Str
compress_to_client =
    104 ∷ 101 ∷ 108 ∷ 108 ∷ 111 ∷ 32 ∷ 99 ∷ 108 ∷ 105 ∷ 101 ∷ 110 ∷ 116 ∷ 32 ∷ 105 ∷ 110 ∷ 32 ∷ 99
    ∷ 111 ∷ 109 ∷ 112 ∷ 114 ∷ 101 ∷ 115 ∷ 115 ∷ 46 ∷ []

-- The body of the loop in `compress::tests::connect`.
unfoldable pub compress_exchange : Deflate → Bool → Test (Unit {0})
compress_exchange d auto_flush = do
  try_call (
      at_client_writer (Compress.send memory d auto_flush (default 6) (written compress_to_server)))
  reader ← try_call (at_server_reader (Compress.recv memory d (default 6)))
  message ← read_string reader
  assert_eq compress_to_server message
  try_call (
      at_server_writer (Compress.send memory d auto_flush (default 6) (written compress_to_client)))
  reader' ← try_call (at_client_reader (Compress.recv memory d (default 6)))
  message' ← read_string reader'
  assert_eq compress_to_client message'

-- `compress::tests::connect`
unfoldable pub compress_connect : Deflate → Bool → Test (Unit {0})
compress_connect d auto_flush = do
  c ←
      try_call
        (attempt (at_client_writer (Compress.client_init memory auto_flush identifier version)))
  s ← try_call (attempt (at_server_reader (Compress.server_init memory identifier accepts)))
  _ ← try_call (at_server_writer (Compress.server_start memory auto_flush identifier version s))
  try_call (at_client_reader (Compress.client_start memory c))
  repeated 10 (compress_exchange d auto_flush)

compress_exchange_passes :
    (auto_flush : Bool) → compress_exchange toy_deflate auto_flush create ≡ (ok tt, create)
unfolding compress_exchange Compress.send Compress.recv ◌>>=◌ write_packet check_bytes_len default
    write flush memory_flush read_packet read bytes_eq get_compression encode
compress_exchange_passes true = refl
compress_exchange_passes false = refl

compress_connect_passes :
    (auto_flush : Bool) → (compress_connect toy_deflate auto_flush create).0 ≡ ok tt
unfolding compress_connect Compress.client_init Compress.server_init Compress.client_start
    Compress.server_start write_head read_head write_last read_last to_bools from_bools variant_eq
    ◌>>=◌ write_packet check_bytes_len default write flush memory_flush read_packet read bytes_eq
    get_compression encode
compress_connect_passes true =
    ap (λ p. p.0)
      (repeated_same 10 (compress_exchange toy_deflate true) create (compress_exchange_passes true))
compress_connect_passes false =
    ap (λ p. p.0)
      (repeated_same 10 (compress_exchange toy_deflate false) create
        (compress_exchange_passes false))
