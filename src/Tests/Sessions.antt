-- ===== src/Tests/Sessions.antt =====
-- Handlers of the raw and compress protocols: requests with their replies.
use tcp_handler.Config.{get_compression}
use tcp_handler.Common.Packet.{read_packet, check_bytes_len, write_packet}
use tcp_handler.Base.{◌≡◌, refl, true, List, [], ◌∷◌, ◌++◌, ok, bytes_eq, arith, ◌>>=◌}
use tcp_handler.Transport.{Bytes}
use tcp_handler.Transport.Memory.{memory, read}
use tcp_handler.Transport.Memory.Proofs.{memory-IsLawful}
use tcp_handler.Common.Last.{flush}
use tcp_handler.Raw
use tcp_handler.Compress
use tcp_handler.Streams.{handler_send_recv}
use tcp_handler.Streams.Dialogue.{request_all, serve_all}
use tcp_handler.Streams.Dialogue.Answered.{Rounds, no_rounds, round}
use tcp_handler.Streams.Raw.Server as RawServer
use tcp_handler.Streams.Raw.Client as RawClient
use tcp_handler.Streams.Raw.Server.{TcpServerHandlerRaw}
use tcp_handler.Streams.Raw.Client.{TcpClientHandlerRaw}
use tcp_handler.Streams.Raw.Dialogue as RawDialogue
use tcp_handler.Streams.Raw.Session.{raw_session}
use tcp_handler.Streams.Compress.Server as CompressServer
use tcp_handler.Streams.Compress.Client as CompressClient
use tcp_handler.Streams.Compress.Server.{TcpServerHandlerCompress}
use tcp_handler.Streams.Compress.Client.{TcpClientHandlerCompress}
use tcp_handler.Streams.Compress.Dialogue as CompressDialogue
use tcp_handler.Streams.Compress.Session.{compress_session}
use tcp_handler.Base.{Outcome}
use tcp_handler.Common.Errors.{StarterError, PacketError}
use tcp_handler.Streams.Session.{session}
use tcp_handler.Streams.Calls.{map_ok}
use tcp_handler.Common.Variant.{variant_eq}
use tcp_handler.Transport.Memory.{MemoryWriter}
use tcp_handler.Transport.Carries.{Carries}
use tcp_handler.Common.Variant.{to_bools, from_bools}
use tcp_handler.Common.Head.{write_head, read_head}
use tcp_handler.Common.Last.{write_last, read_last}
use tcp_handler.Tests.Setup.{
  test, any, other_end, toy_deflate, toy-IsDeflate, fresh_writer, small, hello, one,
}

abbrev pub world : Bytes
world = 119 ∷ 111 ∷ 114 ∷ 108 ∷ 100 ∷ []

-- The server's reply.
abbrev pub echo : Bytes → Bytes
echo m = 1 ∷ m

abbrev requests : List (Unit {0} × Bytes)
requests = (tt, hello) ∷ (tt, world) ∷ []

abbrev draws : List (Unit {0})
draws = tt ∷ tt ∷ []

abbrev raw_up : Bytes
raw_up = 5 ∷ hello ++ 5 ∷ world

abbrev raw_down : Bytes
raw_down = 6 ∷ echo hello ++ 6 ∷ echo world

raw-Rounds : Rounds (RawDialogue.Sealed memory-IsLawful small) echo tt requests draws tt
raw-Rounds =
    round (record { fits = omega arith; packet = refl })
      (record { fits = omega arith; packet = refl })
      (round (record { fits = omega arith; packet = refl })
        (record { fits = omega arith; packet = refl }) no_rounds)

abbrev compress_up : Bytes
compress_up = 6 ∷ 6 ∷ hello ++ 6 ∷ 6 ∷ world

abbrev compress_down : Bytes
compress_down = 7 ∷ 6 ∷ echo hello ++ 7 ∷ 6 ∷ echo world

compress-Rounds :
    Rounds (CompressDialogue.Sealed memory-IsLawful toy_deflate small) echo tt requests draws tt
compress-Rounds =
    round (record { coded = 6 ∷ hello; deflated = refl; fits = omega arith; packet = refl })
      (record { coded = 6 ∷ echo hello; deflated = refl; fits = omega arith; packet = refl })
      (round (record { coded = 6 ∷ world; deflated = refl; fits = omega arith; packet = refl })
        (record { coded = 6 ∷ echo world; deflated = refl; fits = omega arith; packet = refl })
        no_rounds)

abbrev raw_head : MemoryWriter
raw_head = (Raw.client_init memory true test one fresh_writer).1

abbrev raw_answer : MemoryWriter
raw_answer = (Raw.server_start memory true test one (ok (1, one)) fresh_writer).1

abbrev raw_client :
    Outcome StarterError (Outcome PacketError (List Bytes) × TcpClientHandlerRaw memory)
    × MemoryWriter
raw_client =
    session (λ (h : TcpClientHandlerRaw memory). h.writer)
      (request_all (RawClient.handler memory true small) requests)
      (RawClient.new memory true test one) (other_end raw_answer ++ raw_down, fresh_writer)

abbrev raw_server :
    Outcome StarterError (Outcome PacketError (List Bytes) × TcpServerHandlerRaw memory)
    × MemoryWriter
raw_server =
    session (λ (h : TcpServerHandlerRaw memory). h.writer)
      (serve_all (RawServer.handler memory true small) echo draws)
      (RawServer.new memory true test any one) (other_end raw_head ++ raw_up, fresh_writer)

raw_up-Carries : Carries memory-IsLawful fresh_writer raw_client.1 (other_end raw_head ++ raw_up)
unfolding memory-IsLawful bytes_eq variant_eq to_bools from_bools request_all serve_all
    handler_send_recv RawClient.new RawClient.handler RawClient.send RawClient.recv RawServer.new
    RawServer.handler RawServer.send RawServer.recv Raw.client_init Raw.server_init Raw.client_start
    Raw.server_start Raw.send Raw.recv ◌>>=◌ write_head read_head write_last read_last write_packet
    check_bytes_len flush read_packet read
raw_up-Carries = record {
  sent = other_end raw_head ++ raw_up;
  rest = [];
  wrote = refl;
  gets = refl;
}

raw_down-Carries :
    Carries memory-IsLawful fresh_writer raw_server.1 (other_end raw_answer ++ raw_down)
unfolding memory-IsLawful bytes_eq variant_eq to_bools from_bools request_all serve_all
    handler_send_recv RawClient.new RawClient.handler RawClient.send RawClient.recv RawServer.new
    RawServer.handler RawServer.send RawServer.recv Raw.client_init Raw.server_init Raw.client_start
    Raw.server_start Raw.send Raw.recv ◌>>=◌ write_head read_head write_last read_last write_packet
    check_bytes_len flush read_packet read
raw_down-Carries = record {
  sent = other_end raw_answer ++ raw_down;
  rest = [];
  wrote = refl;
  gets = refl;
}

raw_session_example :
    (map_ok (λ r. r.0) raw_client.0 ≡ ok (ok (echo hello ∷ echo world ∷ [])))
    × (map_ok (λ r. r.0) raw_server.0 ≡ ok (ok (hello ∷ world ∷ [])))
unfolding memory-IsLawful variant_eq bytes_eq
raw_session_example =
    raw_session memory-IsLawful true small (omega arith) test one one any refl echo requests draws
      {cw = fresh_writer} {sw = fresh_writer} tt tt raw-Rounds raw_up-Carries raw_down-Carries

abbrev compress_head : MemoryWriter
compress_head = (Compress.client_init memory true test one fresh_writer).1

abbrev compress_answer : MemoryWriter
compress_answer = (Compress.server_start memory true test one (ok (1, one)) fresh_writer).1

abbrev compress_client :
    Outcome StarterError (Outcome PacketError (List Bytes) × TcpClientHandlerCompress memory)
    × MemoryWriter
compress_client =
    session (λ (h : TcpClientHandlerCompress memory). h.writer)
      (request_all (CompressClient.handler memory toy_deflate true small) requests)
      (CompressClient.new memory true test one)
      (other_end compress_answer ++ compress_down, fresh_writer)

abbrev compress_server :
    Outcome StarterError (Outcome PacketError (List Bytes) × TcpServerHandlerCompress memory)
    × MemoryWriter
compress_server =
    session (λ (h : TcpServerHandlerCompress memory). h.writer)
      (serve_all (CompressServer.handler memory toy_deflate true small) echo draws)
      (CompressServer.new memory true test any one)
      (other_end compress_head ++ compress_up, fresh_writer)

compress_up-Carries :
    Carries memory-IsLawful fresh_writer compress_client.1 (other_end compress_head ++ compress_up)
unfolding memory-IsLawful bytes_eq variant_eq to_bools from_bools request_all serve_all
    handler_send_recv CompressClient.new CompressClient.handler CompressClient.send
    CompressClient.recv CompressServer.new CompressServer.handler CompressServer.send
    CompressServer.recv Compress.client_init Compress.server_init Compress.client_start
    Compress.server_start Compress.send Compress.recv ◌>>=◌ write_head read_head write_last
    read_last write_packet check_bytes_len flush read_packet read get_compression
compress_up-Carries = record {
  sent = other_end compress_head ++ compress_up;
  rest = [];
  wrote = refl;
  gets = refl;
}

compress_down-Carries :
    Carries memory-IsLawful fresh_writer compress_server.1
      (other_end compress_answer ++ compress_down)
unfolding memory-IsLawful bytes_eq variant_eq to_bools from_bools request_all serve_all
    handler_send_recv CompressClient.new CompressClient.handler CompressClient.send
    CompressClient.recv CompressServer.new CompressServer.handler CompressServer.send
    CompressServer.recv Compress.client_init Compress.server_init Compress.client_start
    Compress.server_start Compress.send Compress.recv ◌>>=◌ write_head read_head write_last
    read_last write_packet check_bytes_len flush read_packet read get_compression
compress_down-Carries = record {
  sent = other_end compress_answer ++ compress_down;
  rest = [];
  wrote = refl;
  gets = refl;
}

compress_session_example :
    (map_ok (λ r. r.0) compress_client.0 ≡ ok (ok (echo hello ∷ echo world ∷ [])))
    × (map_ok (λ r. r.0) compress_server.0 ≡ ok (ok (hello ∷ world ∷ [])))
unfolding memory-IsLawful variant_eq bytes_eq
compress_session_example =
    compress_session memory-IsLawful toy-IsDeflate true small (omega arith) test one one any refl
      echo requests draws {cw = fresh_writer} {sw = fresh_writer} tt tt compress-Rounds
      compress_up-Carries compress_down-Carries
