-- ===== src/Tests/CompressedSessions.antt =====
-- Handlers of the compress_encrypt protocol: requests with their replies.
use tcp_handler.Config.{get_compression}
use tcp_handler.Common.Packet.{read_packet, check_bytes_len, write_packet}
use tcp_handler.Base.{◌≡◌, refl, true, List, [], ◌∷◌, ◌++◌, ok, bytes_eq, arith, ◌>>=◌}
use tcp_handler.Transport.{Bytes}
use tcp_handler.Transport.Memory.{memory, read}
use tcp_handler.Transport.Memory.Proofs.{memory-IsLawful}
use tcp_handler.Common.Cipher.{get, reset, read_nonce, guarded}
use tcp_handler.Common.Channel.{holding}
use tcp_handler.Common.Last.{flush}
use tcp_handler.CompressEncrypt
use tcp_handler.Streams.{handler_send_recv}
use tcp_handler.Streams.Dialogue.{request_all, serve_all}
use tcp_handler.Streams.Dialogue.Answered.{Rounds, no_rounds, round}
use tcp_handler.Streams.CompressEncrypt.Server as CompressEncryptServer
use tcp_handler.Streams.CompressEncrypt.Client as CompressEncryptClient
use tcp_handler.Streams.CompressEncrypt.Server.{TcpServerHandlerCompressEncrypt}
use tcp_handler.Streams.CompressEncrypt.Client.{TcpClientHandlerCompressEncrypt}
use tcp_handler.Streams.CompressEncrypt.Dialogue as CompressEncryptDialogue
use tcp_handler.Streams.CompressEncrypt.Session.{compress_encrypt_session}
use tcp_handler.Tests.SealedSessions.{sealed_requests, sealed_draws}
use tcp_handler.Tests.Sessions.{world, echo}
use tcp_handler.Base.{Outcome}
use tcp_handler.Common.Errors.{StarterError, PacketError}
use tcp_handler.Streams.Session.{session}
use tcp_handler.Streams.Calls.{map_ok}
use tcp_handler.Common.Variant.{variant_eq}
use tcp_handler.Transport.Memory.{MemoryWriter}
use tcp_handler.Transport.Carries.{Carries}
use tcp_handler.Common.Variant.{to_bools, from_bools}
use tcp_handler.Common.Head.{write_head, read_head}
use tcp_handler.Common.Last.{write_last, read_last}
use tcp_handler.Common.Cipher.{new}
use tcp_handler.Common.Keys.{generate_rsa_private, compose_rsa_public}
use tcp_handler.Tests.Setup.{
  test, any, other_end, toy, toy-IsCrypto, toy_deflate, toy-IsDeflate, fresh_writer, small, hello,
  one, aes_key, first_nonce, second_nonce, third_nonce,
}

abbrev compress_encrypt_up : Bytes
compress_encrypt_up =
    31 ∷ 12 ∷ first_nonce
    ++ 6 ∷ second_nonce
    ++ hello
    ++ 31 ∷ 12 ∷ third_nonce
    ++ 6 ∷ second_nonce
    ++ world

abbrev compress_encrypt_down : Bytes
compress_encrypt_down =
    32 ∷ 12 ∷ second_nonce
    ++ 6 ∷ third_nonce
    ++ echo hello
    ++ 32 ∷ 12 ∷ second_nonce
    ++ 6 ∷ third_nonce
    ++ echo world

compress_encrypt-Rounds :
    Rounds
      (CompressEncryptDialogue.Sealed memory-IsLawful toy toy_deflate small)
      echo
      (aes_key, first_nonce)
      sealed_requests
      sealed_draws
      (aes_key, third_nonce)
compress_encrypt-Rounds =
    round
      (record {
        sealed = 12 ∷ first_nonce ++ 6 ∷ second_nonce ++ hello;
        steps = record { plain = 6 ∷ second_nonce ++ hello; deflated = refl; encrypted = refl };
        nonce_len = refl;
        fits = omega arith;
        packet = refl;
        next = refl;
      })
      (record {
        sealed = 12 ∷ second_nonce ++ 6 ∷ third_nonce ++ echo hello;
        steps = record { plain = 6 ∷ third_nonce ++ echo hello; deflated = refl; encrypted = refl };
        nonce_len = refl;
        fits = omega arith;
        packet = refl;
        next = refl;
      })
      (round
        (record {
          sealed = 12 ∷ third_nonce ++ 6 ∷ second_nonce ++ world;
          steps = record { plain = 6 ∷ second_nonce ++ world; deflated = refl; encrypted = refl };
          nonce_len = refl;
          fits = omega arith;
          packet = refl;
          next = refl;
        })
        (record {
          sealed = 12 ∷ second_nonce ++ 6 ∷ third_nonce ++ echo world;
          steps = record {
            plain = 6 ∷ third_nonce ++ echo world;
            deflated = refl;
            encrypted = refl;
          };
          nonce_len = refl;
          fits = omega arith;
          packet = refl;
          next = refl;
        })
        no_rounds)

abbrev compress_encrypt_head : MemoryWriter
compress_encrypt_head = (CompressEncrypt.client_init memory toy true 7 test one fresh_writer).1

abbrev compress_encrypt_answer : MemoryWriter
compress_encrypt_answer =
    (CompressEncrypt.server_start memory toy true aes_key first_nonce 9 test one (ok ((1, one), 7))
      fresh_writer).1

abbrev compress_encrypt_client :
    Outcome StarterError
      (Outcome PacketError (List Bytes) × TcpClientHandlerCompressEncrypt memory toy)
    × MemoryWriter
compress_encrypt_client =
    session (λ (h : TcpClientHandlerCompressEncrypt memory toy). h.writer)
      (request_all (CompressEncryptClient.handler memory toy toy_deflate true small)
        sealed_requests)
      (CompressEncryptClient.new memory toy true 7 test one)
      (other_end compress_encrypt_answer ++ compress_encrypt_down, fresh_writer)

abbrev compress_encrypt_server :
    Outcome StarterError
      (Outcome PacketError (List Bytes) × TcpServerHandlerCompressEncrypt memory toy)
    × MemoryWriter
compress_encrypt_server =
    session (λ (h : TcpServerHandlerCompressEncrypt memory toy). h.writer)
      (serve_all (CompressEncryptServer.handler memory toy toy_deflate true small) echo
        sealed_draws)
      (CompressEncryptServer.new memory toy true aes_key first_nonce 9 test any one)
      (other_end compress_encrypt_head ++ compress_encrypt_up, fresh_writer)

compress_encrypt_up-Carries :
    Carries memory-IsLawful fresh_writer compress_encrypt_client.1
      (other_end compress_encrypt_head ++ compress_encrypt_up)
unfolding memory-IsLawful bytes_eq variant_eq to_bools from_bools request_all serve_all
    handler_send_recv CompressEncryptClient.new CompressEncryptClient.handler
    CompressEncryptClient.send CompressEncryptClient.recv CompressEncryptServer.new
    CompressEncryptServer.handler CompressEncryptServer.send CompressEncryptServer.recv
    CompressEncrypt.client_init CompressEncrypt.server_init CompressEncrypt.client_start
    CompressEncrypt.server_start CompressEncrypt.send CompressEncrypt.recv ◌>>=◌ write_head
    read_head write_last read_last write_packet check_bytes_len flush read_packet read
    CompressEncrypt.seal CompressEncrypt.unseal CompressEncrypt.open_key get reset guarded
    read_nonce new generate_rsa_private compose_rsa_public get_compression
compress_encrypt_up-Carries = record {
  sent = other_end compress_encrypt_head ++ compress_encrypt_up;
  rest = [];
  wrote = refl;
  gets = refl;
}

compress_encrypt_down-Carries :
    Carries memory-IsLawful fresh_writer compress_encrypt_server.1
      (other_end compress_encrypt_answer ++ compress_encrypt_down)
unfolding memory-IsLawful bytes_eq variant_eq to_bools from_bools request_all serve_all
    handler_send_recv CompressEncryptClient.new CompressEncryptClient.handler
    CompressEncryptClient.send CompressEncryptClient.recv CompressEncryptServer.new
    CompressEncryptServer.handler CompressEncryptServer.send CompressEncryptServer.recv
    CompressEncrypt.client_init CompressEncrypt.server_init CompressEncrypt.client_start
    CompressEncrypt.server_start CompressEncrypt.send CompressEncrypt.recv ◌>>=◌ write_head
    read_head write_last read_last write_packet check_bytes_len flush read_packet read
    CompressEncrypt.seal CompressEncrypt.unseal CompressEncrypt.open_key get reset guarded
    read_nonce new generate_rsa_private compose_rsa_public get_compression
compress_encrypt_down-Carries = record {
  sent = other_end compress_encrypt_answer ++ compress_encrypt_down;
  rest = [];
  wrote = refl;
  gets = refl;
}

compress_encrypt_session_example :
    (map_ok (λ r. r.0) compress_encrypt_client.0 ≡ ok (ok (echo hello ∷ echo world ∷ [])))
    × (map_ok (λ r. r.0) compress_encrypt_server.0 ≡ ok (ok (hello ∷ world ∷ [])))
    × (map_ok (λ r. r.1.cipher) compress_encrypt_client.0 ≡ ok (holding (aes_key, third_nonce)))
    × (map_ok (λ r. r.1.cipher) compress_encrypt_server.0 ≡ ok (holding (aes_key, third_nonce)))
unfolding memory-IsLawful variant_eq bytes_eq
compress_encrypt_session_example =
    compress_encrypt_session memory-IsLawful toy-IsCrypto toy-IsDeflate true small (omega arith) 7
      refl aes_key first_nonce {seed' = 9} refl refl refl test one one any refl echo
      (aes_key, third_nonce) sealed_requests sealed_draws {cw = fresh_writer} {sw = fresh_writer} tt
      tt compress_encrypt-Rounds compress_encrypt_up-Carries compress_encrypt_down-Carries
